-- ===== src/Syncer/Start/Tests.antt =====
-- syncer.go and the command of cmd/syncer on concrete libraries and sequences of events.
use hohapiserver.Base.{
  ◌≡◌, arith, ◌≢◌, String, ◌⊎◌, inl, inr, List, [], ◌∷◌, ◌++◌, returned, true, false,
}
use hohapiserver.Kube.Lifecycle.{finished, initial, Event, own, context_done, caches_synced, play}
use hohapiserver.Syncer.Start.{start, SyncerOptions, ClientGo, num_threads, run_command}
use hohapiserver.Syncer.Start.Laws.{start-ends, Both, run_command-Both}

abbrev six : List Event
six = own true ∷ own true ∷ own true ∷ caches_synced ∷ own true ∷ own true ∷ own true ∷ []

-- A configuration is its host, which is the name of its file, and a client is a configuration.
abbrev files : ClientGo String String
files = record {
  with_user_agent = λ agent c. c;
  host = λ c. c;
  new_client = λ c. inr c;
  load = λ path. inr path;
  in_cluster = inl "not in a cluster";
}

abbrev hubs : SyncerOptions
hubs = record { from_kubeconfig = "global"; to_kubeconfig = "regional"; pod_namespace = "hub1" }

start-ends_example :
    let t = play (start num_threads) ((own true ∷ []) ++ context_done ∷ six) initial in
    (t.phase ≡ finished) × (t.queue_open ≡ false) × (t.workers ≡ 2)
start-ends_example = start-ends num_threads (own true ∷ []) six (omega arith)

run_command-Both_example :
    ((run_command files hubs []).0 ≡ returned tt × Both files hubs [] (run_command files hubs []).1)
    ⊎ (((run_command files hubs []).0 ≢ returned tt) × ((run_command files hubs []).1 ≡ []))
run_command-Both_example = run_command-Both files hubs []
