-- ===== src/Ikc/Noc.antt =====
-- knoc_init() of src/libnanvix/ikc/noc.c.
use libnanvix.Shared.{ℕ, ◌+◌, pos, Option, Outcome, done, panic}
use libnanvix.Kernel.{Kernel}
use libnanvix.Ikc.Resource.{Resources}
use libnanvix.Ikc.Mailbox.{World}
use libnanvix.Ikc.Mailbox.Control.{init}
use libnanvix.Ikc.Mportal.Table.{Channels, Ports}
use libnanvix.Ikc.Mportal.Init.{kportal_init}
use libnanvix.Ikc.Msync.Table.{Table}
use libnanvix.Ikc.Msync.Control.{ksync_init}

-- The state of the three modules of src/libnanvix/ikc, with the kernel's state in `mailboxes`.
pub record Noc (R S : Type 0) (Inbox : Type 0) : Type 0 where
  pub channels : Inbox
  pub read_channels : ℕ → R
  pub ports : Ports R
  pub syncs : Table R
  pub mailboxes : World S

-- The ids of the mailboxes that portals and syncs use.
pub record Inboxes : Type 0 where
  pub portal_channels : Channels
  pub sync_inbox : ℕ
  pub sync_outboxes : ℕ → Option ℕ

-- `channel_port` is MAILBOX_PORT_NR - 3, and `local` is the answer of knode_get_num().
module _ (k : Kernel) (res : Resources) (local channel_port nodes_num ksync_max : ℕ) where
  unfoldable pub knoc_init :
      {Old : Type 0} → Noc res.Resource k.State Old → Outcome (Noc res.Resource k.State Inboxes)
  unfolding kportal_init ksync_init init
  knoc_init noc =
      elim (kportal_init k local channel_port res nodes_num noc.read_channels noc.ports
        noc.mailboxes.state) [
          | panic ↦ panic
          | done (ch, read_channels, ports, s) ↦
              elim (ksync_init res ksync_max nodes_num k (channel_port + 2) (pos local) noc.syncs
                s) [
                  | panic ↦ panic
                  | done (inbox, outboxes, syncs, s') ↦ done (record {
                    channels = record {
                      portal_channels = ch;
                      sync_inbox = inbox;
                      sync_outboxes = outboxes;
                    };
                    read_channels = read_channels;
                    ports = ports;
                    syncs = syncs;
                    mailboxes = init (record noc.mailboxes { state = s' });
                  })
                ]
        ]
