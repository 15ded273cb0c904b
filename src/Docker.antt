-- ===== src/Docker.antt =====
-- docker.list and docker.inspect of src/handlers/docker.rs. The crate bollard and the daemon are
-- parameters.
pub mod Stats
mod Tests
use Prim.Native.Char.{code}
use Prim.Native.String
use nobase_agent.Prelude.{
  ℕ, String, ◌<>◌, Bool, true, false, List, [], ◌∷◌, Option, none, some, Result, ok, err, ℤ, pos,
  neg, if◌then◌else◌, ◌==◌, map, map_err, unwrap_or,
}
use nobase_agent.Prelude.Dict.{Dict}
use nobase_agent.Proto.Rpc.{RpcResponse, reply, Failure, fault, respond, invalid_params}
use nobase_agent.Proto.Methods.{
  DockerListRequest, DockerInspectRequest, DockerPortMapping, DockerContainerSummary,
}
use nobase_agent.Proto.Wire.{Wire}

-- `PortInfo` and `ContainerSummary` of bollard; `typ` is its debug print, `networks` the keys.
pub record PortInfo : Type 0 where
  pub private_port : ℕ
  pub public_port : Option ℕ
  pub typ : Option String
  pub ip : Option String

pub record Container : Type 0 where
  pub id : Option String
  pub names : Option (List String)
  pub image : Option String
  pub state : Option String
  pub status : Option String
  pub created : Option ℤ
  pub labels : Option (Dict String)
  pub ports : Option (List PortInfo)
  pub networks : Option (List String)

-- Which containers are asked for: all, or those with the status `running`.
pub record ListOptions : Type 0 where
  pub all : Bool
  pub filters : Dict (List String)

-- `trim_start_matches('/')`
unfoldable pub trim_slashes : String → String
trim_slashes String.[] = ""
trim_slashes (String.◌∷◌ c s) =
    let rest = trim_slashes s in if code c == b'/' then rest else String.◌∷◌ c s

abbrev pub running_only : ListOptions
running_only = record { all = false; filters = ("status", "running" ∷ []) ∷ [] }

unfoldable pub list_options : DockerListRequest → ListOptions
list_options req = if req.all then record { all = true; filters = [] } else running_only

abbrev pub container_name : Option (List String) → String
container_name none = ""
container_name (some []) = ""
container_name (some (n ∷ names)) = trim_slashes n

unfoldable pub port_mapping : (String → String) → PortInfo → DockerPortMapping
port_mapping to_lowercase p = record {
  container_port = p.private_port;
  host_port = p.public_port;
  protocol = elim p.typ [ some t ↦ to_lowercase t | none ↦ "tcp" ];
  host_ip = p.ip;
}

unfoldable pub summary : (String → String) → Container → DockerContainerSummary
unfolding trim_slashes port_mapping
summary to_lowercase c = record {
  id = unwrap_or "" c.id;
  name = container_name c.names;
  image = unwrap_or "" c.image;
  state = unwrap_or "" c.state;
  status = unwrap_or "" c.status;
  created = unwrap_or (pos 0) c.created;
  ports = map (port_mapping to_lowercase) (unwrap_or [] c.ports);
  networks = unwrap_or [] c.networks;
  labels = unwrap_or [] c.labels;
}

-- `connect_docker`, for the error of the connection.
abbrev pub connect_docker {ℓ} : {A : Type ℓ} → Result String A → Result Failure A
connect_docker r = map_err (λ e. fault (neg 1) ("Failed to connect to Docker: " <> e)) r

module _ (wire : Wire) where
  open wire use {Value, string, number, array, object, null}

  abbrev optional {ℓ} : {A : Type ℓ} → (A → Value) → Option A → Value
  optional f none = null
  optional f (some a) = f a

  unfoldable pub port_value : DockerPortMapping → Value
  port_value p = object (
      ("container_port", number (pos p.container_port))
      ∷ ("host_port", optional (λ n. number (pos n)) p.host_port)
      ∷ ("protocol", string p.protocol)
      ∷ ("host_ip", optional string p.host_ip)
      ∷ [])

  unfoldable pub summary_value : DockerContainerSummary → Value
  unfolding port_value
  summary_value c = object (
      ("id", string c.id)
      ∷ ("name", string c.name)
      ∷ ("image", string c.image)
      ∷ ("state", string c.state)
      ∷ ("status", string c.status)
      ∷ ("created", number c.created)
      ∷ ("ports", array (map port_value c.ports))
      ∷ ("networks", array (map string c.networks))
      ∷ ("labels", object (map (λ l. (l.0, string l.1)) c.labels))
      ∷ [])

  abbrev pub invalid : String → Failure
  invalid e = fault invalid_params ("Invalid params: " <> e)

  -- `daemon` is the connection, and then what the daemon lists.
  unfoldable pub docker_list :
      (String → String)
      → Result String (ListOptions → Result String (List Container))
      → DockerListRequest
      → Result Failure (List DockerContainerSummary)
  unfolding list_options summary
  docker_list to_lowercase (err e) req = connect_docker (err e)
  docker_list to_lowercase (ok list_containers) req = elim (list_containers (list_options req)) [
    | err e ↦ err (fault (neg 1) ("Failed to list containers: " <> e))
    | ok containers ↦ ok (map (summary to_lowercase) containers)
  ]

  abbrev pub summaries_value : List DockerContainerSummary → Value
  summaries_value found = object (("containers", array (map summary_value found)) ∷ [])

  unfoldable pub handle_docker_list :
      (String → String)
      → Result String (ListOptions → Result String (List Container))
      → String
      → Value
      → RpcResponse Value
  unfolding reply docker_list summary_value
  handle_docker_list to_lowercase daemon id params =
      reply id (wire.docker_list params) (docker_list to_lowercase daemon) summaries_value

  -- The daemon's answer is passed on as it is.
  unfoldable pub docker_inspect :
      Result String (String → Result String Value) → DockerInspectRequest → Result Failure Value
  docker_inspect (err e) req = connect_docker (err e)
  docker_inspect (ok inspect_container) req =
      map_err (λ e. fault (neg 1) ("Failed to inspect container: " <> e))
        (inspect_container req.container_id)

  unfoldable pub handle_docker_inspect :
      Result String (String → Result String Value) → String → Value → RpcResponse Value
  unfolding reply docker_inspect
  handle_docker_inspect daemon id params =
      reply id (wire.docker_inspect params) (docker_inspect daemon) (λ v. v)
