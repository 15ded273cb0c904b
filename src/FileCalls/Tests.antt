-- ===== src/FileCalls/Tests.antt =====
-- Runs of the calls at concrete inputs.
use nobase_agent.Prelude.{
  if◌then◌else◌, String, ◌≡◌, refl, Bool, true, false, List, [], ◌∷◌, Option, none, some, Result,
  ok, err, ℤ, ◌⊎◌, pos, ◌==ₛ◌,
}
use nobase_agent.Samples.{wire}
use nobase_agent.Proto.Methods.{FsDeleteRequest}
use nobase_agent.Proto.Rpc.{command_failed}
use nobase_agent.Streams.{exited}
use nobase_agent.FileCalls.{remove_dir, Paths, refused, search, delete}

abbrev print : ℤ → String
print z = "-1"

-- A full directory `d`, beside files.
abbrev host : Paths
host = record {
  perform = λ call. elim call [ remove_dir path ↦ some "Directory not empty" | _ ↦ none ];
  status = λ call. exited (some (pos 0));
  is_dir = λ path. if path ==ₛ "d" then ok true else ok false;
}

abbrev request : Bool → FsDeleteRequest
request recursive = record { path = "d"; recursive = some recursive; sudo = none }

test_refused :
    delete wire print host (request false)
    ≡ err (record { code = command_failed; message = "Cannot delete 'd': Directory not empty" })
unfolding delete
test_refused = refl

test_search : search (refused "a\n\nb\n" "Permission denied") ≡ ok ("a" ∷ "b" ∷ [])
unfolding search nobase_agent.Prelude.lines
test_search = refl
