-- ===== src/Syncer/Start/Laws.antt =====
-- syncer.go: Start ends, and the command starts both controllers or none.
use hohapiserver.Base.{
  ℕ, ◌+◌, ◌≤◌, String, ◌==◌, eq_iff, ◌≡◌, ◌≢◌, arith, Bool-cases, sum_cases, false, ◌⊎◌, inl, inr,
  List, ◌∷◌, ◌++◌, returned, panicked,
}
use hohapiserver.Kube.Lifecycle.{finished, initial, Event, context_done, own_steps, play}
use hohapiserver.Kube.Lifecycle.Laws.{play-ends}
use hohapiserver.Syncer.Controller.{SyncDirection, sync_down, sync_up, new}
use hohapiserver.Syncer.Start.{
  start, Started, SyncerOptions, validate_syncer_options, ClientGo, num_threads, new_syncer,
  new_spec_syncer, new_status_syncer, start_syncer, to_config, run, run_command,
}

-- Whatever happens before and after the end of the context, and whether or not the caches are ever synced: Start
-- ends within four steps of its own more than it has threads, with the queue shut down and, by then, all its
-- workers started.
pub start-ends :
    (n : ℕ) (before after : List Event)
    → n + 4 ≤ own_steps after
    → let t = play (start n) (before ++ context_done ∷ after) initial in
      (t.phase ≡ finished) × (t.queue_open ≡ false) × (t.workers ≡ n)
unfolding start
start-ends n before after enough =
    let (done, shut, workers) = play-ends false n before after enough in
    (done, shut, ground (arith, workers))

module _ {Config Client : Type 0} (lib : ClientGo Config Client) where
  -- What the command has started: a controller that takes specs from the global hub to the regional hub, and one
  -- that takes status the other way, both under the name of the namespace.
  pub record Both (o : SyncerOptions) (before after : List (Started Client)) : Type 0 where
    pub upstream : Config
    pub downstream : Config
    pub spec : Started Client
    pub status : Started Client
    pub has_file : o.from_kubeconfig ≢ ""
    pub upstream_loaded : lib.load o.from_kubeconfig ≡ inr upstream
    pub downstream_loaded : to_config lib o ≡ inr downstream
    pub spec_made :
        (new_spec_syncer lib o.pod_namespace upstream downstream before).0 ≡ returned spec
    pub status_made :
        (new_status_syncer lib o.pod_namespace downstream upstream before).0 ≡ returned status
    pub down : spec.controller.direction ≡ sync_down
    pub up : status.controller.direction ≡ sync_up
    pub both_started : after ≡ status ∷ spec ∷ before

  -- A controller is made with its direction, or the program panics; nothing is started.
  new_syncer-cases :
      (agent : String) (d : SyncDirection) (name : String) (from to : Config)
      (s : List (Started Client))
      → ((c : Started Client) × (new_syncer lib agent d name from to s ≡ (returned c, s))
          × (c.controller.direction ≡ d))
        ⊎ (new_syncer lib agent d name from to s ≡ (panicked, s))
  unfolding new_syncer new
  new_syncer-cases agent d name from to s =
      elim (sum_cases (lib.new_client (lib.with_user_agent agent from))) [
        | inl (e, q) ↦ inr (ground (arith, q))
        | inr (f, q) ↦ elim (sum_cases (lib.new_client (lib.with_user_agent agent to))) [
          | inl (e, r) ↦ inr (ground (arith, q, r))
          | inr (t, r) ↦ inl (
            record {
              controller = new name (lib.host (lib.with_user_agent agent from)) d;
              from_client = f;
              to_client = t;
              threads = num_threads;
            },
            ground (arith, q, r),
            ground (arith, q, r),
          )
        ]
      ]

  -- The command starts both controllers and returns, or it starts none: it never runs with one direction.
  pub run_command-Both :
      (o : SyncerOptions) (before : List (Started Client))
      → ((run_command lib o before).0 ≡ returned tt × Both o before (run_command lib o before).1)
        ⊎ (((run_command lib o before).0 ≢ returned tt) × ((run_command lib o before).1 ≡ before))
  unfolding run_command run start_syncer validate_syncer_options
  run_command-Both o before = elim (Bool-cases (o.from_kubeconfig == "")) [
    | inl missing ↦ inr (ground (arith, missing), ground (arith, missing))
    | inr given ↦ elim (sum_cases (lib.load o.from_kubeconfig)) [
      | inl (e, q) ↦ inr (ground (arith, given, q), ground (arith, given, q))
      | inr (upstream, q) ↦ elim (sum_cases (to_config lib o)) [
        | inl (e, r) ↦ inr (ground (arith, given, q, r), ground (arith, given, q, r))
        | inr (downstream, r) ↦
            elim (new_syncer-cases "globalhub#spec-syncer/v0.0.0" sync_down o.pod_namespace upstream
              downstream before) [
                | inr p ↦ inr (ground (arith, given, q, r, p), ground (arith, given, q, r, p))
                | inl (spec, p, down) ↦
                    elim (new_syncer-cases "globalhub#status-syncer/v0.0.0" sync_up o.pod_namespace
                      downstream upstream before) [
                        | inr p' ↦
                            inr (
                              ground (arith, given, q, r, p, p'),
                              ground (arith, given, q, r, p, p'),
                            )
                        | inl (status, p', up) ↦ inl (
                          ground (arith, given, q, r, p, p'),
                          record {
                            upstream = upstream;
                            downstream = downstream;
                            spec = spec;
                            status = status;
                            has_file = ground (arith, given, eq_iff o.from_kubeconfig "");
                            upstream_loaded = q;
                            downstream_loaded = r;
                            spec_made = ground (arith, p);
                            status_made = ground (arith, p');
                            down = down;
                            up = up;
                            both_started = ground (arith, given, q, r, p, p');
                          },
                        )
                      ]
              ]
      ]
    ]
  ]
