-- ===== src/Ikc/Msync/Wait.antt =====
-- ksync_wait() of src/libnanvix/ikc/msync.c, for one thread: nothing else changes the table while it
-- runs. The mailbox of the signals and the clock are parameters, over a world `W`.
use libnanvix.Shared.{
  ℕ, zero, suc, ◌+◌, ◌%◌, ◌^◌, Bool, true, not, Option, none, some, ℤ, pos, negsuc, Ret, ok, fail,
  einval, eagain, count_one, minus_u64, ltb, if◌then◌else◌, update,
}
use libnanvix.Ikc.Resource.{Resources}
use libnanvix.Ikc.Msync.Point.{MsyncHash, Msync, receive, barrier_consume}
use libnanvix.Ikc.Msync.Table.{Table, search, refusal}

-- The clock before and after a loop, in the latency of a point.
unfoldable pub elapsed : ℕ → ℕ → ℕ → ℕ
elapsed latency t0 t1 = (latency + minus_u64 t1 t0) % 2 ^ 64

module _ (res : Resources) (ksync_max nodes_num : ℕ) (node_is_valid : ℕ → Bool) where
  open res use {Resource}

  -- What is done with a signal: it is ignored unless its source is a node and a point is found for it.
  unfoldable pub deliver : MsyncHash → Table Resource → Table Resource
  unfolding search receive
  deliver hash t =
      if not (node_is_valid hash.source) then t else elim (search res ksync_max t hash true) [
        | none ↦ t
        | some i ↦ record t {
          points = update t.points i (receive nodes_num hash.source (t.points i));
        }
      ]

  -- What ksync_wait() does behind its loop.
  unfoldable pub waited : ℕ → ℕ → ℕ → Ret × Table Resource → Ret × Table Resource
  unfolding elapsed
  waited i t0 t1 (fail e, t) =
      (fail e, record t { resources = update t.resources i (res.set_notbusy (t.resources i)) })
  waited i t0 t1 (ok n, t) =
      let point = t.points i in
      let later : Msync = record point { latency = elapsed point.latency t0 t1 } in
      (
        ok n,
        record t {
          resources = update t.resources i (res.set_notbusy (t.resources i));
          points = update t.points i later;
          counters = record t.counters { nwaits = count_one t.counters.nwaits };
        },
      )

  unfoldable pub mark_busy : ℕ → Table Resource → Table Resource
  mark_busy i t = record t { resources = update t.resources i (res.set_busy (t.resources i)) }

  -- `receive_signal` is the kmailbox_read() of a hash, `none` if it does not return the hash's size;
  -- `kclock` reads the clock.
  module _ {W : Type 0} (receive_signal : W → Option MsyncHash × W) (kclock : W → ℕ × W) where
    -- The second call of ksync_barrier_consume(), behind `wait_lock`, finds what the first found.
    unfoldable pub do_ksync_wait : ℕ → Table Resource → W → Ret × Table Resource × W
    unfolding barrier_consume deliver
    do_ksync_wait i t w =
        let (consumed, point) = barrier_consume (t.points i) in
        let (message, w') = receive_signal w in
        if consumed
        then (ok 0, record t { points = update t.points i point }, w)
        else elim message [ none ↦ (fail eagain, t, w') | some hash ↦ (ok 1, deliver hash t, w') ]

    -- The loop of ksync_wait(), for at most `fuel` signals; `none` means that the fuel ran out.
    unfoldable pub wait_loop : ℕ → ℕ → Table Resource → W → Option (Ret × Table Resource × W)
    unfolding do_ksync_wait
    wait_loop zero i t w = none
    wait_loop (suc fuel) i t w =
        let (ret, t', w') = do_ksync_wait i t w in
        let rest = wait_loop fuel i t' w' in
        elim ret [
          | fail e ↦ some (fail e, t', w')
          | ok n ↦ if ltb 0 n then rest else some (ok n, t', w')
        ]

    unfoldable pub ksync_wait : ℕ → ℤ → Table Resource → W → Option (Ret × Table Resource × W)
    unfolding refusal mark_busy wait_loop waited
    ksync_wait fuel (negsuc n) t w = some (fail einval, t, w)
    ksync_wait fuel (pos i) t w =
        if not (ltb i ksync_max)
        then some (fail einval, t, w)
        else elim (refusal res ksync_max true (t.resources i)) [
          | some e ↦ some (fail e, t, w)
          | none ↦
              let (t0, w0) = kclock w in
              elim (wait_loop fuel i (mark_busy i t) w0) [
                | none ↦ none
                | some (ret, t', w1) ↦
                    let (t1, w2) = kclock w1 in
                    let (ret', t'') = waited i t0 t1 (ret, t') in some (ret', t'', w2)
              ]
        ]
