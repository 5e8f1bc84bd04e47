-- ===== src/CloudSync/Aggregator.antt =====
-- bin/ledger/cloud_sync/impl/aggregator.{h,cc}: many watchers' states merged into one stream. A
-- listener is known by a number, as by its address in the code; a call of the base watcher is an
-- entry of `notified`, the newest first.
pub mod Laws
pub mod Examples
use peridot.Base.{ℕ, suc, ◌+◌, List, [], ◌∷◌, ◌==◌, if◌then◌else◌}
use peridot.CloudSync.SyncState.{SyncStateContainer, default_state, merge, ne_container}

pub record Aggregator : Type 0 where
  pub state : SyncStateContainer
  pub listeners : List (ℕ × SyncStateContainer)
  pub next_listener : ℕ
  pub notified : List SyncStateContainer

unfoldable pub create : Aggregator
create = record {
  state = default_state;
  listeners = [];
  next_listener = 0;
  notified = default_state ∷ [];
}

pub merge_all : SyncStateContainer → List (ℕ × SyncStateContainer) → SyncStateContainer
merge_all acc [] = acc
merge_all acc ((i, s) ∷ rest) = merge_all (merge acc s) rest

pub new_state_available : Aggregator → Aggregator
new_state_available a =
    let new_state = merge_all default_state a.listeners in
    if ne_container new_state a.state
    then record a { state = new_state; notified = new_state ∷ a.notified }
    else a

unfoldable pub get_new_state_watcher : Aggregator → Aggregator
get_new_state_watcher a = record a {
  listeners = (a.next_listener, default_state) ∷ a.listeners;
  next_listener = suc a.next_listener;
}

pub erase : ℕ → List (ℕ × SyncStateContainer) → List (ℕ × SyncStateContainer)
erase i [] = []
erase i ((j, s) ∷ rest) = if j == i then erase i rest else (j, s) ∷ erase i rest

unfoldable pub unregister_listener : ℕ → Aggregator → Aggregator
unfolding erase
unregister_listener i a = record a { listeners = erase i a.listeners }

pub set_state :
    ℕ → SyncStateContainer → List (ℕ × SyncStateContainer) → List (ℕ × SyncStateContainer)
set_state i s [] = []
set_state i s ((j, t) ∷ rest) = (j, if j == i then s else t) ∷ set_state i s rest

-- `Listener::Notify`.
unfoldable pub notify : ℕ → SyncStateContainer → Aggregator → Aggregator
unfolding set_state
notify i s a = new_state_available (record a { listeners = set_state i s a.listeners })

pub data Event : Type 0 where
  register : Event
  unregister : ℕ → Event
  notifies : ℕ → SyncStateContainer → Event

unfoldable pub step : Aggregator → Event → Aggregator
unfolding get_new_state_watcher unregister_listener notify
step a register = get_new_state_watcher a
step a (unregister i) = unregister_listener i a
step a (notifies i s) = notify i s a

unfoldable pub run : Aggregator → List Event → Aggregator
run a [] = a
run a (e ∷ rest) = run (step a e) rest
