-- ===== src/Lock/Group/Machine/Replay.antt =====
-- The log at the map and, at other times, at the mirror.
use phxqueue.Common.{
  ℕ, ◌≡◌, sym, ap, ◌∙◌, true, false, inl, inr, List, [], ◌∷◌, Option-cases, All, map,
}
use phxqueue.Lock.Disk.{Disk, Working}
use phxqueue.Lock.Db.Mirror.{Mirrors}
use phxqueue.Lock.Group.{GroupData}
use phxqueue.Lock.Group.Machine.{LockOption, execute, needs_sync, execute_for_checkpoint}
use phxqueue.Lock.Group.Machine.Held.{Entry, after, run}
use phxqueue.Lock.Group.Machine.Mirror.{is_client, do_execute-Mirrors}

-- A value of the log with the times at which the mirror comes to it.
pub record Turn : Type 0 where
  pub entry : Entry
  pub tested : ℕ
  pub now : ℕ
  pub later : ℕ

module _ (d : Disk) (no_checkpoint : ℕ) where
  -- The mirror after a stretch of the log; the time of the last flush goes along.
  abbrev pub replay : LockOption → ℕ → GroupData d.Db → List Turn → GroupData d.Db
  replay opt last g [] = g
  replay opt last g (t ∷ ts) =
      let next =
        execute_for_checkpoint d no_checkpoint opt g t.entry.instance_id t.entry.value last t.tested
          t.now t.later in
      replay opt next.1 next.2 ts

  module _ (w : Working d) where
    turn-Mirrors :
        (opt : LockOption) (g h : GroupData d.Db) (t : Turn) (last : ℕ)
        → opt.no_leveldb ≡ false
        → Mirrors d g.map h.leveldb
        → is_client t.entry.value ≡ true
        → Mirrors d
            (after d no_checkpoint opt g t.entry).map
            (execute_for_checkpoint d no_checkpoint opt h t.entry.instance_id t.entry.value last
              t.tested t.now t.later).2.leveldb
    unfolding execute execute_for_checkpoint
    turn-Mirrors opt g h t last on mir u = elim (Option-cases t.entry.value) [
      | inl unread ↦ rw (on, unread) mir
      | inr (args, e) ↦
          rw (on, e)
            (do_execute-Mirrors d no_checkpoint w g h t.entry.instance_id args
              (needs_sync d no_checkpoint opt h t.entry.instance_id last t.tested) t.entry.now
              t.entry.later t.now t.later mir (ap is_client (sym e) ∙ u)).1
    ]

    -- The map and the mirror hold the same records of clients, but for the expiry times, and no write
    -- to the disk fails. The same values, none of them for a key of the node's own, are executed at
    -- the map and, at any other times and with flushes wherever they fall, at the mirror. Then the
    -- two hold the same records of clients again.
    pub replay-Mirrors :
        (opt : LockOption) (g h : GroupData d.Db) (ts : List Turn) (last : ℕ)
        → opt.no_leveldb ≡ false
        → Mirrors d g.map h.leveldb
        → All (λ (t : Turn). is_client t.entry.value ≡ true) ts
        → Mirrors d
            (run d no_checkpoint opt g (map (λ (t : Turn). t.entry) ts)).map
            (replay opt last h ts).leveldb
    replay-Mirrors opt g h [] last on mir us = mir
    replay-Mirrors opt g h (t ∷ ts) last on mir us =
        let next =
          execute_for_checkpoint d no_checkpoint opt h t.entry.instance_id t.entry.value last
            t.tested t.now t.later in
        replay-Mirrors opt (after d no_checkpoint opt g t.entry) next.2 ts next.1 on
          (turn-Mirrors opt g h t last on mir us.0) us.1
