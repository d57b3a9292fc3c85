-- ===== src/Ikc/Mportal/Init.antt =====
-- kportal_init() of src/libnanvix/ikc/mportal.c.
use libnanvix.Shared.{
  ℕ, zero, suc, ◌+◌, ◌-◌, true, [], ◌∷◌, none, some, ℤ, pos, negsuc, ok, fail, Outcome, done, panic,
  ltb, ◌==◌, if◌then◌else◌, update,
}
use libnanvix.Kernel.{Kernel, Nr}
use libnanvix.Ikc.Resource.{Resources}
use libnanvix.Ikc.Mportal.Table.{Counters, Channels, Ports}

-- `a - b` of two numbers.
abbrev difference : ℕ → ℕ → ℤ
difference a b = if ltb a b then negsuc (b - a - 1) else pos (a - b)

-- `channel_port` is MAILBOX_PORT_NR - 3, from which the ports of the channels count down, and `local` is
-- the answer of knode_get_num(). A call that fails is a failed KASSERT().
module _ (k : Kernel) (local channel_port : ℕ) where
  -- The three channels of node `i`.
  unfoldable pub connect : ℕ → Channels → k.State → Outcome (Channels × k.State)
  connect i ch s0 =
      let (allow_out, s1) = k.kcall Nr.mailbox_open (pos i ∷ pos (channel_port + 1) ∷ []) s0 in
      elim allow_out [
        | fail e ↦ panic
        | ok a ↦
            let (data_in, s2) =
              k.kcall Nr.mailbox_create (pos local ∷ difference channel_port i ∷ []) s1 in
            elim data_in [
              | fail e ↦ panic
              | ok b ↦
                  let (data_out, s3) =
                    k.kcall Nr.mailbox_open (pos i ∷ difference channel_port local ∷ []) s2 in
                  elim data_out [
                    | fail e ↦ panic
                    | ok c ↦ done (
                      record ch {
                        mallow_outs = update ch.mallow_outs i (some a);
                        mdata_ins = update ch.mdata_ins i (some b);
                        mdata_outs = update ch.mdata_outs i (some c);
                      },
                      s3,
                    )
                  ]
            ]
      ]

  -- The loop over the `n` nodes from `i` on, which passes over the local one.
  unfoldable pub connect_all : ℕ → ℕ → Channels → k.State → Outcome (Channels × k.State)
  unfolding connect
  connect_all zero i ch s = done (ch, s)
  connect_all (suc n) i ch s =
      let skipped = connect_all n (suc i) ch s in
      let connected : Outcome (Channels × k.State) = elim (connect i ch s) [
        | panic ↦ panic
        | done (ch', s') ↦ connect_all n (suc i) ch' s'
      ] in
      if i == local then skipped else connected

  module _ (res : Resources) (nodes_num : ℕ) where
    -- The read channels of the other nodes become used resources, and the counters start again.
    unfoldable pub kportal_init :
        (read_channels : ℕ → res.Resource)
        → Ports res.Resource
        → k.State
        → Outcome (Channels × (ℕ → res.Resource) × Ports res.Resource × k.State)
    unfolding connect_all
    kportal_init read_channels t s =
        let (created, s') = k.kcall Nr.mailbox_create (pos local ∷ pos (channel_port + 1) ∷ []) s in
        elim created [
          | fail e ↦ panic
          | ok id ↦
              let start : Channels = record {
                mallow_in = some id;
                mallow_outs = λ _. none;
                mdata_ins = λ _. none;
                mdata_outs = λ _. none;
              } in
              let none_yet : Counters = record {
                ncreates = 0;
                nunlinks = 0;
                nopens = 0;
                ncloses = 0;
                nreads = 0;
                nwrites = 0;
              } in
              elim (connect_all nodes_num 0 start s') [
                | panic ↦ panic
                | done (ch, s'') ↦ done (
                  ch,
                  λ i.
                      if i == local
                      then read_channels i
                      else if ltb i nodes_num
                      then res.set_used (read_channels i)
                      else read_channels i,
                  record t { counters = none_yet; is_initialized = true },
                  s'',
                )
              ]
        ]
