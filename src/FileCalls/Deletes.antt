-- ===== src/FileCalls/Deletes.antt =====
-- What a delete may remove, src/handlers/fs.rs (`handle_fs_delete`).
use nobase_agent.Prelude.{
  String, ◌<>◌, ◌≡◌, refl, ◌∙◌, sym, Bool, true, false, Option, none, some, Result, ok, err, ℤ, inl,
  inr, ◌⊎◌, arith,
}
use nobase_agent.Proto.Methods.{FsDeleteRequest}
use nobase_agent.Proto.Wire.{Wire}
use nobase_agent.Upload.{unwrap_or_false}
use nobase_agent.FileCalls.{
  SystemCall, remove_dir, remove_dir_all, remove_file, Paths, remove_call, remove_result, delete,
  of_result, done,
}

module _ (wire : Wire) (print : ℤ → String) where
  of_result_ok :
      (message : String) (o : Option String)
      → of_result wire print message o ≡ ok (done wire print)
      → o ≡ none
  unfolding of_result
  of_result_ok message none h = refl
  of_result_ok message (some e) h = absurd (ground (arith, h))

  plain_delete :
      (host : Paths) (req : FsDeleteRequest)
      → unwrap_or_false req.sudo ≡ false
      → delete wire print host req
        ≡ of_result wire print
            ("Cannot delete '" <> (req.path <> "': "))
            (remove_result wire print host req)
  unfolding delete
  plain_delete host req plain = rw (plain, delete) refl

  -- A delete without sudo that answers with success has performed one call: it has removed something
  -- that is not a directory, or a directory that is empty, or, where the request is recursive, a
  -- directory with all in it.
  pub delete_lem :
      (host : Paths) (req : FsDeleteRequest)
      → unwrap_or_false req.sudo ≡ false
      → delete wire print host req ≡ ok (done wire print)
      → (call : SystemCall) × (host.perform call ≡ none)
        × (((call ≡ remove_file req.path) × (host.is_dir req.path ≡ ok false))
            ⊎ (((call ≡ remove_dir req.path) × (host.is_dir req.path ≡ ok true))
                ⊎ ((call ≡ remove_dir_all req.path)
                    × (host.is_dir req.path ≡ ok true)
                    × (unwrap_or_false req.recursive ≡ true))))
  unfolding remove_result remove_call
  delete_lem host req plain succeeded =
      go (host.is_dir req.path) (unwrap_or_false req.recursive) refl refl (
        of_result_ok ("Cannot delete '" <> (req.path <> "': ")) (remove_result wire print host req)
          (sym (plain_delete host req plain) ∙ succeeded))
    where
      go :
          (d : Result String Bool) (r : Bool)
          → host.is_dir req.path ≡ d
          → unwrap_or_false req.recursive ≡ r
          → remove_result wire print host req ≡ none
          → (call : SystemCall) × (host.perform call ≡ none)
            × (((call ≡ remove_file req.path) × (host.is_dir req.path ≡ ok false))
                ⊎ (((call ≡ remove_dir req.path) × (host.is_dir req.path ≡ ok true))
                    ⊎ ((call ≡ remove_dir_all req.path)
                        × (host.is_dir req.path ≡ ok true)
                        × (unwrap_or_false req.recursive ≡ true))))
      go (err e) r d q h = absurd (ground (arith, d, h))
      go (ok false) r d q h = (remove_file req.path, ground (arith, d, h), inl (refl, d))
      go (ok true) true d q h =
          (remove_dir_all req.path, rw (d, remove_result, q) at h, inr (inr (refl, d, q)))
      go (ok true) false d q h =
          (remove_dir req.path, rw (d, remove_result, q) at h, inr (inl (refl, d)))
