-- ===== src/CloudSync/Aggregator/Laws.antt =====
-- What the base watcher of bin/ledger/cloud_sync/impl/aggregator.cc is told.
use peridot.Base.{ℕ, ◌≡◌, ◌≢◌, List, [], ◌∷◌, arith}
use peridot.CloudSync.SyncState.{SyncStateContainer, default_state, merge}
use peridot.CloudSync.SyncState.Laws.{
  Below, merge_least, Below-trans, Below-refl, ne_container-false,
}
use peridot.CloudSync.Aggregator.{Aggregator, merge_all, new_state_available, notify, set_state}

abbrev AllBelow : List (ℕ × SyncStateContainer) → SyncStateContainer → Type 0
AllBelow [] t = Unit
AllBelow ((i, s) ∷ rest) t = Below s t × AllBelow rest t

-- The least container above the default one and every listener's.
pub record IsJoin (ls : List (ℕ × SyncStateContainer)) (t : SyncStateContainer) : Type 0 where
  pub base : Below default_state t
  pub upper : AllBelow ls t
  pub least : (u : SyncStateContainer) → Below default_state u → AllBelow ls u → Below t u

merge_all-upper :
    (acc : SyncStateContainer) (ls : List (ℕ × SyncStateContainer))
    → Below acc (merge_all acc ls) × AllBelow ls (merge_all acc ls)
unfolding merge_all
merge_all-upper acc [] = (Below-refl acc, tt)
merge_all-upper acc ((i, s) ∷ rest) =
    let (a, b) = merge_all-upper (merge acc s) rest in
    let (x, y, _) = merge_least acc s acc in (Below-trans x a, (Below-trans y a, b))

merge_all-least :
    (acc u : SyncStateContainer) (ls : List (ℕ × SyncStateContainer))
    → Below acc u
    → AllBelow ls u
    → Below (merge_all acc ls) u
unfolding merge_all
merge_all-least acc u [] h k = h
merge_all-least acc u ((i, s) ∷ rest) h k =
    merge_all-least (merge acc s) u rest ((merge_least acc s u).2 h k.0) k.1

merge_all-IsJoin : (ls : List (ℕ × SyncStateContainer)) → IsJoin ls (merge_all default_state ls)
merge_all-IsJoin ls =
    let (a, b) = merge_all-upper default_state ls in
    record { base = a; upper = b; least = λ u h k. merge_all-least default_state u ls h k }

state-new_state_available :
    (a : Aggregator) → (new_state_available a).state ≡ merge_all default_state a.listeners
unfolding new_state_available
state-new_state_available a =
    ground (arith, ne_container-false (merge_all default_state a.listeners) a.state)

listeners-new_state_available : (a : Aggregator) → (new_state_available a).listeners ≡ a.listeners
unfolding new_state_available
listeners-new_state_available a = ground arith

-- After a notification the aggregated state is the least one that is above the idle state and above
-- the state of every listener, whatever the order of the listeners.
pub notify-IsJoin :
    (i : ℕ) (s : SyncStateContainer) (a : Aggregator)
    → IsJoin (notify i s a).listeners (notify i s a).state
unfolding notify
notify-IsJoin i s a =
    let b = record a { listeners = set_state i s a.listeners } in
    rw (state-new_state_available b, listeners-new_state_available b)
      (merge_all-IsJoin (set_state i s a.listeners))

-- Each entry differs from the one before it.
pub data IsChanges : List SyncStateContainer → Type 0 where
  first : (s : SyncStateContainer) → IsChanges (s ∷ [])
  change :
      {s t : SyncStateContainer} {rest : List SyncStateContainer}
      → s ≢ t
      → IsChanges (t ∷ rest)
      → IsChanges (s ∷ t ∷ rest)

-- What the base watcher has heard: the present state last, and only changes.
pub record IsTold (a : Aggregator) : Type 0 where
  pub before : List SyncStateContainer
  pub now : a.notified ≡ a.state ∷ before
  pub changes : IsChanges (a.state ∷ before)
