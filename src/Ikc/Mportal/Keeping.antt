-- ===== src/Ikc/Mportal/Keeping.antt =====
-- How a read from another node keeps a message for another port in buffers (do_kportal_aread() of
-- src/libnanvix/ikc/mportal.c), for one thread.
use libnanvix.Shared.{
  ℕ, zero, suc, ◌+◌, ◌-◌, Bool, true, false, List, ◌++◌, Option, none, some, Ret, ok, fail, ltb,
  if◌then◌else◌, update,
}
use libnanvix.Ikc.Resource.{Resources}
use libnanvix.Ikc.Mportal.Pieces.{
  Config, bytes, take, drop, Run, returned, asserted, out_of_fuel, Read, got, failed,
}
use libnanvix.Ikc.Mportal.Buffers.{Buffer, Pool, buffer_alloc, set_available}
use libnanvix.Ikc.Mportal.Local.{Reading}

-- The variables of do_kportal_aread() at its label `exit`, with the pool and the mailboxes.
pub record Round (R W : Type 0) : Type 0 where
  pub ret : Ret
  pub valid : Bool
  pub buffering : Bool
  pub reading : Reading
  pub pool : Pool R
  pub world : W

module _ (res : Resources) (buffer_max buffer_size fuel : ℕ) {W : Type 0}
    (kmailbox_read : Option ℕ → W → Read W) where
  open res use {Resource}

  -- Data is added to a buffer that holds `received` bytes.
  unfoldable pub append : ℕ → ℕ → ℕ → List ℕ → Pool Resource → Pool Resource
  append i received n content p =
      let buf = p.buffers i in
      let longer : Buffer = record buf {
        content = take received buf.content ++ take n content;
        size = buf.size + n;
      } in
      record p { buffers = update p.buffers i longer }

  -- The first data of a buffer that was just given out.
  unfoldable pub refill : ℕ → ℕ → List ℕ → Pool Resource → Pool Resource
  refill i n content p =
      let filled : Buffer = record (p.buffers i) { content = take n content; size = n } in
      record p { buffers = update p.buffers i filled }

  -- The loop that reads the pieces behind a header into buffers, with the buffer `i` that holds
  -- `received` bytes. Where it waits for a free buffer, it runs out of fuel.
  unfoldable pub keep_pieces :
      ℕ
      → Option ℕ
      → (eof : Bool) → (received i : ℕ) → Pool Resource
      → W
      → Run (Ret × ℕ × Pool Resource × W)
  unfolding append refill buffer_alloc
  keep_pieces n mdata true received i p w = returned (ok received, i, p, w)
  keep_pieces zero mdata false received i p w = out_of_fuel
  keep_pieces (suc n) mdata false received i p w = elim (kmailbox_read mdata w) [
    | failed e w' ↦ returned (fail e, i, p, w')
    | got message w' ↦
        let content = bytes message.payload in
        let room = buffer_size - received in
        let rest =
          keep_pieces n mdata message.eof (received + message.size) i
            (append i received message.size content p) w' in
        let (found, q) =
          buffer_alloc res buffer_max buffer_size (some i) (some (p.buffers i).config)
            (append i received room content p) in
        let behind : Run (Ret × ℕ × Pool Resource × W) = elim found [
          | none ↦ out_of_fuel
          | some j ↦
              let left = message.size - room in
              keep_pieces n mdata message.eof left j (refill j left (drop room content) q) w'
        ] in
        if message.header
        then asserted
        else if ltb buffer_size (received + message.size)
        then behind
        else rest
  ]

  -- A message for another port, behind its header.
  unfoldable pub keep_message :
      Option ℕ → (eof : Bool) → Config → Reading → Pool Resource → W → Run (Round Resource W)
  unfolding buffer_alloc keep_pieces set_available
  keep_message mdata eof c r p w =
      let (found, q) = buffer_alloc res buffer_max buffer_size none (some c) p in
      elim found [
        | none ↦ out_of_fuel
        | some i ↦ elim (keep_pieces fuel mdata eof 0 i q w) [
          | out_of_fuel ↦ out_of_fuel
          | asserted ↦ asserted
          | returned (fail e, last, q', w') ↦ returned (record {
            ret = fail e;
            valid = true;
            buffering = true;
            reading = r;
            pool = q';
            world = w';
          })
          | returned (ok n, last, q', w') ↦ returned (record {
            ret = ok n;
            valid = true;
            buffering = true;
            reading = r;
            pool = set_available res buffer_max buffer_size (some last) q';
            world = w';
          })
        ]
      ]
