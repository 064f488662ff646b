-- ===== src/Watchers/Start.antt =====
-- `NewPeerServiceWatcher`, `SetupWithManager`, `NeedLeaderElection` and `Start` of
-- internal/watchers/peerServiceWatcher.go, and the calls that a registered informer makes. The library's
-- manager, informers and label requirements are parameters.
use k8s_glb_operator.Base.{Bool, true, String, List, [], ◌∷◌}
use k8s_glb_operator.Api.{Labels, LabelSelectorRequirement, wrapped, Result, ok, err, ◌>>=◌}
use k8s_glb_operator.Watchers.{
  PeerClient, InformerObject, on_add, on_update, on_delete, filter, filter_update,
}

-- `cache.ResourceEventHandlerFuncs`
pub record Handlers (S : Type 0) : Type 0 where
  pub add_func : InformerObject → S → S
  pub update_func : InformerObject → InformerObject → S → S
  pub delete_func : InformerObject → S → S

-- What the informer sees, in its order.
pub data InformerEvent : Type 0 where
  added : InformerObject → InformerEvent
  updated : InformerObject → InformerObject → InformerEvent
  deleted : InformerObject → InformerEvent

abbrev pub peer_requirement : String → LabelSelectorRequirement
peer_requirement label_key = record { key = label_key; operator = "exists"; values = [] }

-- `labels.NewRequirement`, whose selector is what it matches.
unfoldable pub new_peer_service_watcher :
    (LabelSelectorRequirement → Result (Labels → Bool)) → String → Result (Labels → Bool)
new_peer_service_watcher new_requirement label_key = new_requirement (peer_requirement label_key)

abbrev pub need_leader_election : Bool
need_leader_election = true

-- `fmt.Errorf` with the verb `%w`, if there is an error.
abbrev pub wrap_result {ℓ} : {A : Type ℓ} → String → Result A → Result A
wrap_result text (ok a) = ok a
wrap_result text (err e) = err (wrapped text e)

module _ {S : Type 0} (client : PeerClient S) (selected : Labels → Bool) where
  unfoldable pub handlers : Handlers S
  unfolding filter filter_update
  handlers = record {
    add_func = filter selected (on_add client);
    update_func = filter_update selected (on_update client);
    delete_func = filter selected (on_delete client);
  }

  -- `GetCache().GetInformer` gives an informer, and `AddEventHandler` one that calls the handlers. What
  -- follows is the wait for the end of the context.
  unfoldable pub start : {I : Type 0} → Result I → (I → Handlers S → Result I) → Result I
  unfolding handlers
  start get_informer add_event_handler = do
    informer ← wrap_result "failed to get service informer" get_informer
    wrap_result "failed to add event handler" (add_event_handler informer handlers)

unfoldable pub handle_event : {S : Type 0} → Handlers S → InformerEvent → S → S
handle_event h (added obj) s = h.add_func obj s
handle_event h (updated old_obj new_obj) s = h.update_func old_obj new_obj s
handle_event h (deleted obj) s = h.delete_func obj s

unfoldable pub dispatch : {S : Type 0} → Handlers S → List InformerEvent → S → S
unfolding handle_event
dispatch h [] s = s
dispatch h (event ∷ events) s = dispatch h events (handle_event h event s)
