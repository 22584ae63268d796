-- ===== src/Stream/Sound.antt =====
-- packages/sdk-ts/src/streamStore.ts: no event that the store holds is ahead of its stream's position.
use montlok_terminal.Prelude.{
  ℕ, ◌≤◌, String, ◌≡◌, inl, inr, List, [], ◌∷◌, some, arith, string_eq, All, Bool-cases,
}
use montlok_terminal.JsMap.{get, set, delete, set_all, get-set}
use montlok_terminal.Stream.Protocol.{EventEnvelope}
use montlok_terminal.Stream.Store.{
  TerminalStreamStore, StagedSnapshot, StreamState, position, trim, update,
}

abbrev pub Within : List (String × EventEnvelope) → List (String × ℕ) → Type 0
Within events positions = All (λ kv. kv.1.stream_seq ≤ position positions kv.1.stream) events

module _ (positions : List (String × ℕ)) where
  pub Within-set :
      (m : List (String × EventEnvelope)) (k : String) (e : EventEnvelope)
      → Within m positions
      → e.stream_seq ≤ position positions e.stream
      → Within (set m k e) positions
  unfolding set
  Within-set [] k e h le = (le, tt)
  Within-set ((j, w) ∷ m) k e h le = ground (arith, Within-set m k e h.1 le)

  Within-delete :
      (m : List (String × EventEnvelope)) (k : String)
      → Within m positions
      → Within (delete m k) positions
  unfolding delete
  Within-delete [] k h = tt
  Within-delete ((j, w) ∷ m) k h = ground (arith, Within-delete m k h.1)

  pub Within-trim :
      (m : List (String × EventEnvelope)) → Within m positions → Within (trim m) positions
  unfolding trim
  Within-trim [] h = tt
  Within-trim ((k, e) ∷ m) h = ground (arith, Within-delete ((k, e) ∷ m) k h)

  pub Within-set_all :
      (m from : List (String × EventEnvelope))
      → Within m positions
      → Within from positions
      → Within (set_all m from) positions
  unfolding set_all
  Within-set_all m [] h g = h
  Within-set_all m ((k, e) ∷ from) h g =
      Within-set_all (set m k e) from (Within-set m k e h g.0) g.1

  pub Within-advance :
      (m : List (String × EventEnvelope)) (stream : String) (n : ℕ)
      → position positions stream ≤ n
      → Within m positions
      → Within m (set positions stream n)
  Within-advance [] stream n le h = tt
  Within-advance ((k, e) ∷ m) stream n le h = (
    ground (arith, get-set positions stream n e.stream, string_eq.beq_iff stream e.stream),
    Within-advance m stream n le h.1,
  )

abbrev pub IsStaged : String × StagedSnapshot → Type 0
IsStaged (id, staged) = Within staged.events staged.positions

pub record IsSound (s : TerminalStreamStore) : Type 0 where
  pub working : Within s.working.events s.working.positions
  pub pending : Within s.pending_market s.working.positions
  pub staged : All IsStaged s.snapshots
  pub published : Within s.state.events s.state.positions

pub All-set :
    (m : List (String × StagedSnapshot)) (k : String) (v : StagedSnapshot)
    → All IsStaged m
    → Within v.events v.positions
    → All IsStaged (set m k v)
unfolding set
All-set [] k v h p = (p, tt)
All-set ((j, w) ∷ m) k v h p = ground (arith, All-set m k v h.1 p)

pub All-delete :
    (m : List (String × StagedSnapshot)) (k : String) → All IsStaged m → All IsStaged (delete m k)
unfolding delete
All-delete [] k h = tt
All-delete ((j, w) ∷ m) k h = ground (arith, All-delete m k h.1)

pub IsStaged-get :
    (m : List (String × StagedSnapshot)) (k : String) (v : StagedSnapshot)
    → All IsStaged m
    → get m k ≡ some v
    → Within v.events v.positions
IsStaged-get [] k v h p = absurd (ground arith)
IsStaged-get ((j, w) ∷ m) k v h p = ground (arith, IsStaged-get m k v h.1)

pub update-IsSound :
    (s : TerminalStreamStore) (w : StreamState)
    → Within w.events w.positions
    → Within s.pending_market w.positions
    → All IsStaged s.snapshots
    → Within s.state.events s.state.positions
    → IsSound (update s w)
unfolding update
update-IsSound s w a b c d = elim (Bool-cases s.notify_queued) [
  | inl q ↦ rw (q, update) (record { working = a; pending = b; staged = c; published = d })
  | inr q ↦ rw (q, update) (record { working = a; pending = b; staged = c; published = d })
]
