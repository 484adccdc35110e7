-- ===== src/Worker/Tasks/Target/Returns.antt =====
-- Whether the processing of one target (Go/internal/worker/worker.go) ends.
use share_hound.Collector.Contents.Traverse.Ends.{
  no_error as never_errs, Post, Post->>=, Post-if, Post-map, returns,
}
use share_hound.Collector.Contents.Traverse.Returns.{Post-within_depth, Post-after_timeout}
use share_hound.Collector.Contents.Traverse.{collect_contents_in_share}
use share_hound.Collector.Contents.{Session, WalkError, Walk, no_error}
use share_hound.Graph.Context.{Context}
use share_hound.Graph.Emission.{add_path_to_graph}
use share_hound.Prelude.{
  ℕ, zero, suc, ltb, lt→ltb, ◌+◌, arith, ◌≤◌, ◌<◌, ◌≡◌, Bool, true, false, not, List, [], ◌∷◌,
  Option, none, some, if◌then◌else◌,
}
use share_hound.Prelude.Outcome.{Outcome, ok, err, panic, ◌>>=◌}
use share_hound.Prelude.Text.{Text}
use share_hound.Rules.Evaluator.{
  Evaluator, Rule, share_object, new_evaluator, can_explore, can_process,
}
use share_hound.Rules.Evaluator
use share_hound.Rules.Value.{Runtime}
use share_hound.Collector.Rights.{ShareRights}
use share_hound.Smb.Descriptor.{DescriptorError}
use share_hound.Targets.{Target}
use share_hound.Worker.Tasks.Share.{IsSoundGraph}
use share_hound.Worker.Tasks.Target.Accounts.{process_target-Post}
use share_hound.Worker.Tasks.Target.Ways.{Accounted}
use share_hound.Worker.Tasks.Target.{
  address, Totals, wait_for_cancel, acquire, run_acquired, run_share, run_shares, with_shares,
  with_first, with_address, process_target,
}
use share_hound.Worker.Tasks.{
  Options, ShareInfo, Network, Work, read, rule_share, rights_or_empty, share_context, connection,
  write_share, collect_share, with_session, process_share,
}

-- Any value, but no error.
abbrev Value : {A : Type 0} → Outcome WalkError A → Type 0
Value = Post never_errs (λ a. Unit {0})

Value->>= :
    {A B : Type 0} (m : Outcome WalkError A) (f : A → Outcome WalkError B)
    → Value m
    → ((a : A) → Value (f a))
    → Value (m >>= f)
Value->>= m f h k = Post->>= never_errs (λ a. Unit {0}) (λ b. Unit {0}) m f h (λ a _. k a)

Value-if :
    {A : Type 0} (b : Bool) (x y : Outcome WalkError A)
    → Value x
    → Value y
    → Value (if b then x else y)
Value-if b x y h k = Post-if never_errs (λ a. Unit {0}) b x y (λ _. h) (λ _. k)

rights_or_empty-Value : (r : Outcome DescriptorError ShareRights) → Value (rights_or_empty r)
rights_or_empty-Value (ok x) = tt
rights_or_empty-Value (err e) = tt
rights_or_empty-Value panic = tt

no_error-Value : {A : Type 0} (r : Outcome ⊥ A) → Value (no_error r)
no_error-Value (ok x) = tt
no_error-Value (err e) = elim e [ ]
no_error-Value panic = tt

module _ {F : Type 0} (rt : Runtime F) (net : Network) (timeout : ℕ → Bool) (opts : Options)
    (fuel : ℕ)
    (walks : (session : Session) (v : Walk F)
      → Value (collect_contents_in_share rt session timeout opts.depth fuel v))
    (waits : ltb 0 opts.max_workers_per_host ≡ false
      → (v : Work) → Value (wait_for_cancel timeout fuel v)) where
  write_share-Value : (b : Bool) (c : Context) → Value (write_share rt net timeout opts b c)
  unfolding write_share
  write_share-Value false c = tt
  write_share-Value true c = no_error-Value (add_path_to_graph c)

  collect_share-Value :
      (session : Session) (share : ShareInfo) (e : Evaluator F) (c : Context) (w : Work)
      → Value (collect_share rt net timeout opts fuel session share e c w)
  unfolding collect_share
  collect_share-Value session share e c w =
      let answer = can_process rt (share_object (rule_share share.name)) e in
      Value->>= _ _ (rights_or_empty-Value _) λ rights.
        Value->>= _ _ (write_share-Value answer.1 _) λ c'. Value->>= _ _ (walks session _) λ r. tt

  with_session-Value :
      (host name : Text) (share : ShareInfo) (e : Evaluator F) (w : Work) (o : Option ℕ)
      → Value (with_session rt net timeout opts fuel host name share e (w, o))
  unfolding with_session
  with_session-Value host name share e w none = tt
  with_session-Value host name share e w (some conn) =
      let session = net.sessions conn in
      Value->>= _ _
        (Value-if (timeout w.reads) _ _ tt (
          Value-if (not (session.set_share share.name)) _ _ tt
            (collect_share-Value session share e (share_context opts name share w.graph) (read w))))
        (λ r. tt)

  process_share-Value :
      (rules : List (Rule F)) (host name : Text) (share : ShareInfo) (w : Work)
      → Value (process_share rt net timeout opts fuel rules host name share w)
  unfolding process_share
  process_share-Value rules host name share w =
      let object = rule_share share.name in
      let (e, explored) =
        can_explore rt (share_object object) (Evaluator.set_share object (new_evaluator rules)) in
      let w1 = read w in
      let (v, o) = connection net host (read w1) in
      Value-if (timeout w.reads) _ _ tt (
        Value-if (not explored) _ _ tt
          (Value-if (timeout w1.reads) _ _ tt (with_session-Value host name share e v o)))

  module _ (rules : List (Rule F)) where
    acquire-Value :
        (host name : Text) (share : ShareInfo) (w : Work)
        → Value (acquire rt net timeout opts fuel rules host name share w)
    unfolding acquire
    acquire-Value host name share w =
        Post-if never_errs (λ a. Unit {0}) (ltb 0 opts.max_workers_per_host) _ _ (λ _. tt)
          (λ none. Value->>= _ _ (waits none w) (λ v. tt))

    run_acquired-Value :
        (host name : Text) (share : ShareInfo) (t : Totals) (w : Work) (acquired : Bool)
        → Value (run_acquired rt net timeout opts fuel rules host name share t (w, acquired))
    unfolding run_acquired
    run_acquired-Value host name share t w false = tt
    run_acquired-Value host name share t w true =
        Value-if (timeout w.reads) _ _ tt
          (Value->>= _ _ (process_share-Value rules host name share (read w)) (λ r. tt))

    run_shares-Value :
        (host name : Text) (shares : List ShareInfo) (w : Work) (t : Totals)
        → Value (run_shares rt net timeout opts fuel rules host name shares w t)
    unfolding run_shares run_share
    run_shares-Value host name [] w t = tt
    run_shares-Value host name (share ∷ shares) w t =
        Value->>= (run_share rt net timeout opts fuel rules host name share w t) _
          (Value->>= _ _ (acquire-Value host name share w)
            (λ a. run_acquired-Value host name share t a.0 a.1))
          (λ r. run_shares-Value host name shares r.0 r.1)

    with_shares-Value :
        (host name : Text) (o : Option (List ShareInfo)) (conn : ℕ) (w : Work)
        → Value (with_shares rt net timeout opts fuel rules host name o conn w)
    unfolding with_shares
    with_shares-Value host name none conn w = tt
    with_shares-Value host name (some []) conn w = tt
    with_shares-Value host name (some (share ∷ shares)) conn w =
        Value->>= _ _ (run_shares-Value host name (share ∷ shares) _ _) (λ r. tt)

    with_first-Value :
        (host name : Text) (w : Work) (o : Option ℕ)
        → Value (with_first rt net timeout opts fuel rules host name (w, o))
    unfolding with_first
    with_first-Value host name w none = tt
    with_first-Value host name w (some conn) =
        Value-if (timeout w.reads) _ _ tt
          (with_shares-Value host name net.list_shares conn (read w))

    with_address-Value :
        (name : Text) (o : Option Text) (w : Work)
        → Value (with_address rt net timeout opts fuel rules name o w)
    unfolding with_address
    with_address-Value name none w = tt
    with_address-Value name (some host) w =
        let w1 = read w in
        let (v, o) = connection net host (read w1) in
        Value-if (timeout w.reads) _ _ tt (
          Value-if (not (net.is_port_open host)) _ _ tt
            (Value-if (timeout w1.reads) _ _ tt (with_first-Value host name v o)))

    process_target-Value :
        (target : Target) (w : Work)
        → Value (process_target rt net timeout opts fuel rules target w)
    unfolding process_target
    process_target-Value target w =
        Value->>= _ _ (with_address-Value target.value (address net opts target) _) (λ v. tt)

at_least : (a b : ℕ) → (b < a → ⊥) → a ≤ b
at_least a b h = ground arith

-- A goroutine that waits for the timeout does not wait for ever, if that comes.
wait_for_cancel-Value :
    (timeout : ℕ → Bool) (n steps : ℕ) (w : Work)
    → ((i : ℕ) → n ≤ i → timeout i ≡ true)
    → 0 < steps
    → n < w.reads + steps
    → Value (wait_for_cancel timeout steps w)
unfolding wait_for_cancel
wait_for_cancel-Value timeout n zero w set some_steps enough = absurd (omega arith)
wait_for_cancel-Value timeout n (suc steps) w set some_steps enough =
    Post-if never_errs (λ v. Unit {0}) (timeout w.reads) _ _ (λ _. tt)
      λ unset.
        let early : w.reads < n =
          at_least (suc w.reads) n (λ h. let q = set w.reads (omega arith) in cc) in
        wait_for_cancel-Value timeout n steps (read w) set (omega arith) (omega arith)

module _ {F : Type 0} (rt : Runtime F) (net : Network) (timeout : ℕ → Bool) (opts : Options) where
  ends :
      (fuel : ℕ) (rules : List (Rule F)) (target : Target) (w : Work)
      → ((session : Session) (v : Walk F)
          → Value (collect_contents_in_share rt session timeout opts.depth fuel v))
      → (ltb 0 opts.max_workers_per_host ≡ false
          → (v : Work) → Value (wait_for_cancel timeout fuel v))
      → IsSoundGraph w.graph
      → w.pool.active_connections ≡ []
      → (v : Work) × (process_target rt net timeout opts fuel rules target w ≡ ok v)
  ends fuel rules target w walks waits s idle =
      let (v, e, _, _) =
        returns (Accounted net opts timeout target w) (λ v. Unit {0})
          (process_target rt net timeout opts fuel rules target w)
          (process_target-Post rt net timeout opts fuel rules target w s idle)
          (process_target-Value rt net timeout opts fuel walks waits rules target w) in
      (v, e)

  -- Once the timeout of the host has come, the processing of its target returns, from a sound graph and
  -- with no session in use, whatever the host and the network answer and also where the directories
  -- have no end, with no limit on the depth: `n` is the first read of the flag that finds it set.
  pub process_target-after_timeout :
      (fuel n : ℕ) (rules : List (Rule F)) (target : Target) (w : Work)
      → IsSoundGraph w.graph
      → w.pool.active_connections ≡ []
      → ((i : ℕ) → n ≤ i → timeout i ≡ true)
      → n < fuel
      → (v : Work) × (process_target rt net timeout opts fuel rules target w ≡ ok v)
  unfolding collect_contents_in_share
  process_target-after_timeout fuel n rules target w s idle set enough =
      ends fuel rules target w
        (λ session v.
          Post-map never_errs _ (λ r. Unit {0}) _ (λ r h. tt)
            (Post-after_timeout rt session timeout opts.depth fuel n v set enough))
        (λ _ v. wait_for_cancel-Value timeout n fuel v set (omega arith) (omega arith)) s idle

  -- With a limit on the depth and at least one worker for each host, the processing of a target returns
  -- from a sound graph and with no session in use, whatever the host and the network answer and whether
  -- or not the timeout comes.
  pub process_target-within_depth :
      (fuel : ℕ) (rules : List (Rule F)) (target : Target) (w : Work)
      → IsSoundGraph w.graph
      → w.pool.active_connections ≡ []
      → 0 < opts.max_workers_per_host
      → 0 < opts.depth
      → opts.depth < fuel
      → (v : Work) × (process_target rt net timeout opts fuel rules target w ≡ ok v)
  unfolding collect_contents_in_share
  process_target-within_depth fuel rules target w s idle room limit enough =
      ends fuel rules target w
        (λ session v.
          Post-map never_errs _ (λ r. Unit {0}) _ (λ r h. tt)
            (Post-within_depth rt session timeout opts.depth fuel v limit enough))
        (λ none v. let room' = lt→ltb 0 opts.max_workers_per_host room in cc) s idle
