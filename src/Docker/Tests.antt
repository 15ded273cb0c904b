-- ===== src/Docker/Tests.antt =====
-- Runs of the docker handlers at concrete inputs.
use nobase_agent.Prelude.{◌≡◌, refl, true, [], ◌∷◌, none, some, ok, pos}
use nobase_agent.Samples.{wire}
use nobase_agent.Docker.{Container, docker_list}
use nobase_agent.Docker.Stats.{network_bytes, block_bytes}

abbrev web : Container
web = record {
  id = some "c1";
  names = some ("/web" ∷ []);
  image = none;
  state = some "running";
  status = none;
  created = none;
  labels = none;
  ports = some (record { private_port = 80; public_port = none; typ = none; ip = none } ∷ []);
  networks = none;
}

test_docker_list :
    docker_list wire (λ s. s) (ok (λ options. ok (web ∷ []))) (record { all = true })
    ≡ ok (
        record {
          id = "c1";
          name = "web";
          image = "";
          state = "running";
          status = "";
          created = pos 0;
          ports =
              record { container_port = 80; host_port = none; protocol = "tcp"; host_ip = none }
              ∷ [];
          networks = [];
          labels = [];
        }
        ∷ [])
unfolding docker_list
test_docker_list = refl

-- The sum of two counters wraps.
test_network_bytes : network_bytes (0, 0) ((18446744073709551615, 1) ∷ (2, 3) ∷ []) ≡ (1, 4)
unfolding network_bytes
test_network_bytes = refl

test_block_bytes : block_bytes (0, 0) (("Read", 5) ∷ ("sync", 9) ∷ ("write", 2) ∷ []) ≡ (5, 2)
unfolding block_bytes
test_block_bytes = refl
