-- ===== src/Ikc/Mportal/Local.antt =====
-- Transfers over the portal buffers of src/libnanvix/ikc/mportal.c: reads from buffers, and reads and
-- writes within a node.
use libnanvix.Shared.{
  ℕ, zero, suc, ◌+◌, ◌-◌, List, ◌++◌, Option, none, some, Ret, ok, fail, einval, is_some, ltb, ◌==◌,
  if◌then◌else◌, update,
}
use libnanvix.Ikc.Resource.{Resources}
use libnanvix.Ikc.Mportal.Pieces.{Config, take, drop}
use libnanvix.Ikc.Mportal.Buffers.{
  Buffer, Pool, buffer_alloc, buffer_release, set_available, buffer_search, discard,
}

-- What kportal_buffer_read() hands on: the bytes in the buffer, `remainder` and `previous`.
pub record Reading : Type 0 where
  pub copied : List ℕ
  pub remainder : ℕ
  pub previous : Option ℕ

module _ (res : Resources) (buffer_max buffer_size : ℕ) where
  open res use {Resource, is_used, is_busy}

  -- A buffer's bytes go to the reader, and the buffer before it is released.
  unfoldable pub copy : ℕ → Reading → Pool Resource → Reading × Pool Resource
  unfolding buffer_release
  copy i r p =
      let buf = p.buffers i in
      let (after, q) = buffer_release res buffer_max buffer_size r.previous p in
      let previous = (if is_some r.previous then after else some i) in
      (
        record {
          copied = r.copied ++ take buf.size buf.content;
          remainder = r.remainder - buf.size;
          previous = previous;
        },
        q,
      )

  -- What happens to a buffer that is larger than what is left to read: behind the first one the
  -- message is given up.
  unfoldable pub too_large : ℕ → Reading → Pool Resource → Option (Reading × Pool Resource)
  unfolding discard buffer_release
  too_large i r p = elim (discard res buffer_max buffer_size 2 i p) [
    | none ↦ none
    | some q ↦
        let (next, q') = buffer_release res buffer_max buffer_size r.previous q in
        if ltb 0 (p.buffers i).seq then some (record r { previous = none }, q') else some (r, p)
  ]

  -- The loop of kportal_buffer_read(), for at most `fuel` buffers.
  unfoldable pub read_buffers :
      ℕ → Option ℕ → ℕ → Reading → Pool Resource → Option (Ret × Reading × Pool Resource)
  unfolding copy too_large
  read_buffers fuel none total r p = some (ok total, r, p)
  read_buffers zero (some i) total r p = none
  read_buffers (suc fuel) (some i) total r p =
      let buf = p.buffers i in
      let (r', q) = copy i r p in
      let next : Option ℕ = elim r'.previous [ none ↦ none | some b ↦ (q.buffers b).next ] in
      let rest = read_buffers fuel next (total + buf.size) r' q in
      let failed : Option (Ret × Reading × Pool Resource) = elim (too_large i r p) [
        | none ↦ none
        | some (r'', q') ↦ some (fail einval, r'', q')
      ] in
      if is_busy (p.resources i)
      then some (ok total, r, p)
      else if ltb r.remainder buf.size
      then failed
      else rest

  -- The last buffer of a complete message is released.
  unfoldable pub release_last : Reading → Pool Resource → Reading × Pool Resource
  unfolding buffer_release
  release_last r p =
      let (next, q) = buffer_release res buffer_max buffer_size r.previous p in
      if r.remainder == 0 then (record r { previous = none }, q) else (r, p)

  -- kportal_buffer_read(), for a buffer that is not NULL.
  unfoldable pub buffer_read :
      ℕ → Config → Reading → Pool Resource → Option (Ret × Reading × Pool Resource)
  unfolding buffer_search read_buffers release_last
  buffer_read fuel c r p =
      let first : Option ℕ = elim r.previous [
        | none ↦ buffer_search res buffer_max buffer_size c p
        | some b ↦ (p.buffers b).next
      ] in
      elim (read_buffers fuel first 0 r p) [
        | none ↦ none
        | some (fail e, r', q) ↦ some (fail e, r', q)
        | some (ok n, r', q) ↦ let (r'', q') = release_last r' q in some (ok n, r'', q')
      ]

  -- The loop of do_kportal_awrite_local(), in pieces of at most MPORTAL_BUFFER_SIZE bytes; `none` means
  -- that it waits for a free buffer, or that the fuel ran out.
  unfoldable pub fill :
      ℕ → Config → Option ℕ → ℕ → List ℕ → Pool Resource → Option (Option ℕ × Pool Resource)
  unfolding buffer_alloc
  fill fuel c buf zero bytes p = some (buf, p)
  fill zero c buf (suc m) bytes p = none
  fill (suc fuel) c buf (suc m) bytes p =
      let remainder = suc m in
      let n = (if ltb remainder buffer_size then remainder else buffer_size) in
      let (found, q) = buffer_alloc res buffer_max buffer_size buf (some c) p in
      elim found [
        | none ↦ none
        | some i ↦
            let filled : Buffer = record (q.buffers i) {
              content = take n bytes;
              size = (q.buffers i).size + n;
            } in
            fill fuel c (some i) (remainder - n) (drop n bytes)
              (record q { buffers = update q.buffers i filled })
      ]

  -- do_kportal_awrite_local(), without the volume of the portal.
  unfoldable pub awrite_local :
      ℕ → Config → List ℕ → ℕ → Pool Resource → Option (Ret × Pool Resource)
  unfolding fill set_available
  awrite_local fuel c bytes size p = elim (fill fuel c none size bytes p) [
    | none ↦ none
    | some (last, q) ↦ some (ok size, set_available res buffer_max buffer_size last q)
  ]

  -- do_kportal_aread_local(), without the volume: reads go on until nothing is left to read.
  unfoldable pub aread_local :
      ℕ → ℕ → Config → ℕ → Reading → Pool Resource → Option (Ret × Reading × Pool Resource)
  unfolding buffer_read
  aread_local zero fuel c size r p = none
  aread_local (suc rounds) fuel c size r p = elim (buffer_read fuel c r p) [
    | none ↦ none
    | some (fail e, r', q) ↦ some (fail e, r', q)
    | some (ok n, r', q) ↦
        let rest = aread_local rounds fuel c size r' q in
        if r'.remainder == 0 then some (ok size, r', q) else rest
  ]
