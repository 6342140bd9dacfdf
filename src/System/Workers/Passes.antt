-- ===== src/System/Workers/Passes.antt =====
-- services/platform-api/internal/operation/worker.go: `processOne` and `Run` change the tables only by steps of the
-- platform.
use website_go_based.System.Workers.{Steps, stay, go, Steps-trans, Orderly, Steps-Reach}
use website_go_based.System.Workers.Handlers.{outcome-Steady}
use website_go_based.Base.{ℕ, zero, suc, ◌+◌, ◌≡◌, refl, String, arith, Result, ok, err}
use website_go_based.Operation.Worker.{Outside, Machine}
use website_go_based.Operation.Worker.Topology.{
  cancelled, Completion, provision_done, reset_done, destroy_done, failure_done, topology_done,
  cache_done,
}
use website_go_based.Operation.Worker.Commands.{outcome}
use website_go_based.Operation.Queue.{
  QueueError, no_pending, lease_lost, state_conflict, incomplete, database,
}
use website_go_based.Store.{Faults}
use website_go_based.Operation.Worker.Process.{
  PassError, queue_result, finished, worked_on, after_claim, finish, after, finish_pass, work_on,
  process_one, run,
}
use website_go_based.Operation.Queue.{Record}
use website_go_based.Store.{Store}
use website_go_based.System.{
  Step, take, start, fail, provide, restore, destroy, change, change_cache, Reach,
}

module _ {V W : Type 0} (digest : String → String) (o : Outside V W) (h : Orderly digest o) where
  one_step : (s s' : Store) → Step digest s s' → Steps digest s s'
  one_step s s' e = go s s' (stay s refl) e

  queue_result-ok : (x : Result QueueError Store) (s : Store) → queue_result x ≡ ok s → x ≡ ok s
  queue_result-ok (ok z) s e = ground arith
  queue_result-ok (err z) s e = ground arith

  finish-Steps :
      (c : Completion) (fails : Faults) (s : Store) (r : Record) (now : ℕ) (s' : Store)
      → finish c fails s r now ≡ ok s'
      → Steps digest s s'
  unfolding finish
  finish-Steps (provision_done v code message) fails s r now s' e =
      one_step s s' (provide fails r v code message now (queue_result-ok _ s' e))
  finish-Steps (reset_done v code message) fails s r now s' e =
      one_step s s' (restore fails r v code message now (queue_result-ok _ s' e))
  finish-Steps (destroy_done code message) fails s r now s' e =
      one_step s s' (destroy fails r code message now (queue_result-ok _ s' e))
  finish-Steps (failure_done code message) fails s r now s' e =
      one_step s s' (fail fails r code message now (queue_result-ok _ s' e))
  finish-Steps (topology_done v code message) fails s r now s' e =
      one_step s s' (change fails r v code message now (queue_result-ok _ s' e))
  finish-Steps (cache_done v code message) fails s r now s' e =
      one_step s s' (change_cache fails r v code message now (queue_result-ok _ s' e))
  finish-Steps cancelled fails s r now s' e = ground arith

  after-Steps : (s : Store) (m : Machine V W) → Steps digest s (after o s m).store
  unfolding after
  after-Steps s m = h.goes_on s m.world

  finished-Steps :
      (r : Record) (m : Machine V W) (x : Result PassError Store)
      → ((s : Store) → x ≡ ok s → Steps digest m.store s)
      → Steps digest m.store (finished m x).0.store
  unfolding finished
  finished-Steps r m (err e) k = stay m.store refl
  finished-Steps r m (ok s) k = k s refl

  finish_pass-Steps :
      (r : Record) (m : Machine V W) (c : Completion)
      → Steps digest m.store (finish_pass o r m c).0.store
  unfolding finish_pass
  finish_pass-Steps r m c = finished-Steps r m _ (finish-Steps c _ m.store r _)

  marked-Steps :
      (r : Record) (m : Machine V W) (x : Result QueueError Store)
      → ((s : Store) → x ≡ ok s → Step digest m.store s)
      → Steps digest m.store (worked_on digest o r m x).0.store
  unfolding worked_on
  marked-Steps r m (err e) k = stay m.store refl
  marked-Steps r m (ok s) k =
      let m1 = after o s m in
      let p = outcome digest o r m1 in
      let m2 = after o p.0.store p.0 in
      Steps-trans digest m.store m2.store _ (finish_pass-Steps r m2 p.1) (
        Steps-trans digest m.store p.0.store m2.store (after-Steps p.0.store p.0) (
          Steps-trans digest m.store m1.store p.0.store (outcome-Steady digest o h r m1) (
            Steps-trans digest m.store s m1.store (after-Steps s m)
              (one_step m.store s (k s refl)))))

  work_on-Steps :
      (lease : ℕ) (r : Record) (now : ℕ) (m : Machine V W)
      → Steps digest m.store (work_on digest o lease r now m).0.store
  unfolding work_on
  work_on-Steps lease r now m =
      marked-Steps r m _ (λ s e. start (o.faults m.world) r now (now + lease) e)

  claimed-Steps :
      (lease now : ℕ) (m : Machine V W) (x : Result QueueError (Store × Record))
      → ((s : Store) (r : Record) → x ≡ ok (s, r) → Step digest m.store s)
      → Steps digest m.store (after_claim digest o lease now m x).0.store
  unfolding after_claim
  claimed-Steps lease now m (err no_pending) k = stay m.store refl
  claimed-Steps lease now m (err lease_lost) k = stay m.store refl
  claimed-Steps lease now m (err state_conflict) k = stay m.store refl
  claimed-Steps lease now m (err incomplete) k = stay m.store refl
  claimed-Steps lease now m (err database) k = stay m.store refl
  claimed-Steps lease now m (ok p) k =
      let m1 = after o p.0 m in
      Steps-trans digest m.store m1.store _ (work_on-Steps lease p.1 now m1) (
        Steps-trans digest m.store p.0 m1.store (after-Steps p.0 m)
          (one_step m.store p.0 (k p.0 p.1 refl)))

  pub process_one-Steps :
      (owner : String) (lease : ℕ) (m : Machine V W)
      → Steps digest m.store (process_one digest o owner lease m).0.store
  unfolding process_one
  process_one-Steps owner lease m =
      claimed-Steps lease _ m _ (λ s r e. take (o.faults m.world) (o.locked m.world) owner _ _ r e)

  pub run-Steps :
      (n : ℕ) (owner : String) (lease : ℕ) (m : Machine V W)
      → Steps digest m.store (run n digest o owner lease m).store
  unfolding run
  run-Steps zero owner lease m = stay m.store refl
  run-Steps (suc n) owner lease m =
      let p = process_one digest o owner lease m in
      let m1 = after o p.0.store p.0 in
      Steps-trans digest m.store m1.store _ (run-Steps n owner lease m1) (
        Steps-trans digest m.store p.0.store m1.store (after-Steps p.0.store p.0)
          (process_one-Steps owner lease m))

  -- Where the orchestrator, the cache runtime and the other workers change the tables only by steps of
  -- the platform, a worker that makes any number of passes from a store that the platform can come to
  -- leaves one that it can come to.
  pub run-Reach :
      (n : ℕ) (owner : String) (lease : ℕ) (m : Machine V W)
      → Reach digest m.store
      → Reach digest (run n digest o owner lease m).store
  run-Reach n owner lease m reached =
      Steps-Reach digest m.store (run n digest o owner lease m).store (run-Steps n owner lease m)
        reached
