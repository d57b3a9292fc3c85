-- ===== src/Ikc/Mportal/Buffers.antt =====
-- The portal buffers of src/libnanvix/ikc/mportal.c: transfers within a node, and messages for other
-- ports. A critical section of `buffer_lock` is one function, a pointer to a buffer is its index, and
-- NULL is `none`. MPORTAL_BUFFER_MAX is `buffer_max` and MPORTAL_BUFFER_SIZE is `buffer_size`; the
-- latencies and the KASSERT() that the node of a portal is the local one are not modelled.
use libnanvix.Shared.{
  ℕ, zero, suc, ◌-◌, ◌^◌, Bool, true, false, not, ◌&&◌, List, Option, none, some, count_one,
  is_some, find_first, ltb, ◌==◌, if◌then◌else◌, update,
}
use libnanvix.Ikc.Resource.{Resources}
use libnanvix.Ikc.Mportal.Pieces.{Config}

abbrev pub config_null : Config
config_null = record { local = none; local_port = none; remote = none; remote_port = none }

-- ~(0ULL)
abbrev pub max_u64 : ℕ
max_u64 = 2 ^ 64 - 1

-- A struct mportal_buffer without its resource; `content` is its field `data`.
pub record Buffer : Type 0 where
  pub age : ℕ
  pub seq : ℕ
  pub size : ℕ
  pub config : Config
  pub next : Option ℕ
  pub content : List ℕ

-- `mpbuffers`, with the resources apart, and `mbuffer_next_age`.
pub record Pool (R : Type 0) : Type 0 where
  pub resources : ℕ → R
  pub buffers : ℕ → Buffer
  pub next_age : ℕ

-- Equality of the ids of a configuration.
abbrev pub same_id : Option ℕ → Option ℕ → Bool
same_id none none = true
same_id (some a) (some b) = a == b
same_id _ _ = false

module _ (res : Resources) (buffer_max buffer_size : ℕ) where
  open res use {Resource, is_used, is_busy}

  -- The fields of a buffer that is given out behind `previous`, in the pool where that one is linked.
  unfoldable pub linked : Option ℕ → ℕ → Pool Resource → Pool Resource
  linked none i p = p
  linked (some before) i p = record p {
    resources = update p.resources before (res.set_notbusy (p.resources before));
    buffers = update p.buffers before (record (p.buffers before) { next = some i });
  }

  unfoldable pub next_seq : Option ℕ → Pool Resource → ℕ
  next_seq none p = 0
  next_seq (some before) p = count_one (p.buffers before).seq

  unfoldable pub buffer_alloc : Option ℕ → Option Config → Pool Resource → Option ℕ × Pool Resource
  unfolding linked next_seq
  buffer_alloc previous none p = (none, p)
  buffer_alloc previous (some c) p =
      elim (find_first buffer_max (λ i. not (is_used (p.resources i)))) [
        | none ↦ (none, p)
        | some i ↦
            let q = linked previous i p in
            let given : Buffer = record {
              age = q.next_age;
              seq = next_seq previous p;
              size = 0;
              config = c;
              next = none;
              content = (q.buffers i).content;
            } in
            (
              some i,
              record {
                resources = update q.resources i (res.set_busy (res.set_used (q.resources i)));
                buffers = update q.buffers i given;
                next_age = count_one q.next_age;
              },
            )
      ]

  -- do_kportal_buffer_release(), and kportal_buffer_release() around it.
  unfoldable pub buffer_release : Option ℕ → Pool Resource → Option ℕ × Pool Resource
  buffer_release none p = (none, p)
  buffer_release (some i) p =
      let buf = p.buffers i in
      let empty : Buffer = record buf {
        config = config_null;
        seq = max_u64;
        size = 0;
        next = none;
        age = max_u64;
      } in
      if not (is_used (p.resources i)) then (none, p) else (
        buf.next,
        record p {
          resources = update p.resources i (res.set_unused (p.resources i));
          buffers = update p.buffers i empty;
        },
      )

  -- kportal_buffer_set_available()
  unfoldable pub set_available : Option ℕ → Pool Resource → Pool Resource
  set_available none p = p
  set_available (some i) p = record p {
    resources = update p.resources i (res.set_notbusy (p.resources i));
  }

  -- The loop of do_kportal_buffer_search() over the `n` buffers from `i` on, with the one found so
  -- far. A portal without a remote stops at its first buffer.
  unfoldable pub search_from : Config → ℕ → ℕ → Option ℕ → Pool Resource → Option ℕ
  search_from c zero i best p = best
  search_from c (suc n) i best p =
      let buf = p.buffers i in
      let skipped = search_from c n (suc i) best p in
      let taken = search_from c n (suc i) (some i) p in
      let mine =
        is_used (p.resources i)
        && same_id c.local buf.config.remote
        && same_id c.local_port buf.config.remote_port in
      let older : Bool = elim best [ none ↦ false | some b ↦ ltb (p.buffers b).age buf.age ] in
      let readable =
        same_id c.remote buf.config.local
        && same_id c.remote_port buf.config.local_port
        && (buf.seq == 0)
        && not older
        && not (is_busy (p.resources i)) in
      if not mine
      then skipped
      else if not (is_some c.remote)
      then some i
      else if not readable
      then skipped
      else taken

  -- kportal_buffer_search(); do_kportal_buffer_search() is its body.
  unfoldable pub buffer_search : Config → Pool Resource → Option ℕ
  unfolding search_from
  buffer_search c p = search_from c buffer_max 0 none p

  -- `while (do_kportal_buffer_release(buf));`
  unfoldable pub discard : ℕ → ℕ → Pool Resource → Option (Pool Resource)
  unfolding buffer_release
  discard zero i p = none
  discard (suc fuel) i p =
      let (next, q) = buffer_release (some i) p in
      let rest = discard fuel i q in if is_some next then rest else some q
