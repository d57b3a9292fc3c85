-- ===== src/Ikc/Msync/Signal.antt =====
-- ksync_signal() of src/libnanvix/ikc/msync.c, for one thread. The mailboxes of the other nodes and
-- the clock are parameters, over a world `W`.
use libnanvix.Shared.{
  ℕ, zero, suc, Bool, false, not, none, some, ℤ, pos, negsuc, Ret, ok, fail, einval, count_one, ltb,
  ◌==◌, if◌then◌else◌, update,
}
use libnanvix.Ikc.Resource.{Resources}
use libnanvix.Ikc.Msync.Point.{MsyncHash, Msync}
use libnanvix.Ikc.Msync.Table.{Table, refusal}
use libnanvix.Ikc.Msync.Wait.{elapsed}

-- `send target hash` is the kmailbox_write() of a hash to a node, and `hash_size` is
-- MSYNC_HASH_SIZE.
module _ {W : Type 0} (send : ℕ → MsyncHash → W → Ret × W) (kclock : W → ℕ × W)
    (hash_size : ℕ) where
  abbrev pub is_sent : Ret → Bool
  is_sent (fail e) = false
  is_sent (ok n) = n == hash_size

  -- The loop of do_ksync_signal() over the `n` nodes from `target` on, with the `ret` so far.
  unfoldable pub send_from : ℕ → ℕ → MsyncHash → Ret → W → Ret × W
  send_from zero target hash ret w = (ret, w)
  send_from (suc n) target hash ret w =
      let (answer, w') = send target hash w in
      let skipped = send_from n (suc target) hash ret w in
      let sent = send_from n (suc target) hash answer w' in
      if hash.barrier target then (if is_sent answer then sent else (answer, w')) else skipped

  unfoldable pub do_ksync_signal : ℕ → MsyncHash → W → Ret × W
  unfolding send_from
  do_ksync_signal nodes_num hash w = send_from nodes_num 0 hash (fail einval) w

  module _ (res : Resources) (ksync_max nodes_num : ℕ) where
    open res use {Resource}

    -- What ksync_signal() does behind do_ksync_signal().
    unfoldable pub signalled : ℕ → ℕ → ℕ → Ret × Table Resource → Ret × Table Resource
    unfolding elapsed
    signalled i t0 t1 (fail e, t) =
        (fail e, record t { resources = update t.resources i (res.set_notbusy (t.resources i)) })
    signalled i t0 t1 (ok n, t) =
        let point = t.points i in
        let later : Msync = record point { latency = elapsed point.latency t0 t1 } in
        (
          ok 0,
          record t {
            resources = update t.resources i (res.set_notbusy (t.resources i));
            points = update t.points i later;
            counters = record t.counters { nsignals = count_one t.counters.nsignals };
          },
        )

    unfoldable pub ksync_signal : ℤ → Table Resource → W → Ret × Table Resource × W
    unfolding refusal do_ksync_signal signalled
    ksync_signal (negsuc n) t w = (fail einval, t, w)
    ksync_signal (pos i) t w =
        if not (ltb i ksync_max)
        then (fail einval, t, w)
        else elim (refusal res ksync_max false (t.resources i)) [
          | some e ↦ (fail e, t, w)
          | none ↦
              let busy = record t {
                resources = update t.resources i (res.set_busy (t.resources i));
              } in
              let (t0, w0) = kclock w in
              let (ret, w1) = do_ksync_signal nodes_num (t.points i).hash w0 in
              let (t1, w2) = kclock w1 in
              let (ret', t') = signalled i t0 t1 (ret, busy) in (ret', t', w2)
        ]
