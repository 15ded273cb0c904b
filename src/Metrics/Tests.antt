-- ===== src/Metrics/Tests.antt =====
-- Runs of the probes at concrete inputs.
use nobase_agent.Prelude.{
  ◌<◌, String, ◌≡◌, refl, true, false, List, [], ◌∷◌, none, some, All, inl, inr, ◌⊎◌, ◌-◌, ◌/◌, ◌*◌,
}
use nobase_agent.Metrics.{
  Interface, no_traffic, fold_interfaces, rates, ended, probe_docker_metrics, get_cached,
}
use nobase_agent.Metrics.Primary.{Covers, First, fold_interfaces_lem}

abbrev interfaces : List Interface
interfaces =
    record { name = "lo"; received = 900; transmitted = 900 }
    ∷ record { name = "eth0"; received = 5; transmitted = 7 }
    ∷ record { name = "eth1"; received = 6; transmitted = 6 }
    ∷ []

test_fold_interfaces :
    fold_interfaces interfaces no_traffic
    ≡ record { primary = "eth0"; max_traffic = 12; rx_total = 11; tx_total = 13 }
unfolding fold_interfaces
test_fold_interfaces = refl

-- After a reset of the counters a rate is 0.
test_rates :
    (rates
      (λ delta nanos. delta * 1000000000 / nanos)
      3000000000
      (fold_interfaces interfaces no_traffic)
      (some (record { rx_total = 1; tx_total = 99; timestamp = 1000000000 }))).0
    ≡ (5, 0)
unfolding rates fold_interfaces
test_rates = refl

test_probe_docker_metrics :
    probe_docker_metrics (ended false "") (ended true "27.1|5|x\n")
    ≡ some (record {
      installed = true;
      version = "27.1";
      containers_total = 5;
      containers_running = 0;
    })
unfolding probe_docker_metrics nobase_agent.Prelude.split nobase_agent.Prelude.trim
    nobase_agent.Prelude.parse_u64
test_probe_docker_metrics = refl

-- A value is taken from the cache for 30 seconds.
test_get_cached :
    get_cached {A = String} 29000000000 29000000001 "new" (some (0, "old"))
    ≡ ("old", some (0, "old"))
unfolding get_cached
test_get_cached = refl

fold_interfaces_lem_example :
    All (Covers (fold_interfaces interfaces no_traffic).max_traffic) interfaces
    × ((((fold_interfaces interfaces no_traffic).primary ≡ "")
          × ((fold_interfaces interfaces no_traffic).max_traffic ≡ 0))
        ⊎ (0 < (fold_interfaces interfaces no_traffic).max_traffic)
          × First
              (fold_interfaces interfaces no_traffic).primary
              (fold_interfaces interfaces no_traffic).max_traffic
              interfaces)
fold_interfaces_lem_example = fold_interfaces_lem interfaces
