-- ===== src/Shell/Orphans.antt =====
-- Descriptors that nothing owns any more, src/handlers/shell.rs, along the steps.
use nobase_agent.Prelude.{
  ℕ, String, ◌≡◌, ◌≢◌, refl, ◌∙◌, sym, ap, true, false, Option, none, some, List, [], ◌∷◌, Result,
  ok, err, arith, ◌==ₛ◌, ◌==◌, ◌<>◌, All, Option-cases, Result-cases, Bool-cases, inl, inr,
}
use nobase_agent.Prelude.Dict.{get, insert, remove, get-insert, get-remove}
use nobase_agent.Proto.Rpc.{Failure, fault, command_failed}
use nobase_agent.Proto.Wire.{Wire}
use nobase_agent.Shell.{
  ShellSession, Reader, Shells, Creation, no_pty, no_child, no_dup, created, Base64, mem_fd,
  without_reader, create_pty_session, end_reader, open_shell, write_shell, resize_shell,
  close_shell,
}
use nobase_agent.Shell.Reopened.{mem_fd_close}
use nobase_agent.Shell.Steps.{
  IsFresh, Has, Step, opens, writes, resizes, closes, ends, Reach, here, next,
}

-- An open descriptor that neither a session nor a read thread owns.
pub record Orphan (fd : ℕ) (s : Shells) : Type 0 where
  pub is_open : mem_fd fd s.open_fds ≡ true
  pub no_session : (k : String) (t : ShellSession) → get k s.sessions ≡ some t → t.master_fd ≢ fd
  pub no_reader : All (λ r. r.read_fd ≢ fd) s.readers

module _ (wire : Wire) (base64 : Base64) where
  module _ (fd : ℕ) where
    All-Has :
        (r : Reader) (readers : List Reader)
        → All (λ q. q.read_fd ≢ fd) readers
        → Has r readers
        → r.read_fd ≢ fd
    All-Has r [] all has = absurd has
    All-Has r (q ∷ readers) all (inl e) = λ h. all.0 (ap (λ (x : Reader). x.read_fd) e ∙ h)
    All-Has r (q ∷ readers) all (inr has) = All-Has r readers all.1 has

    pub All-without_reader :
        (r : Reader) (readers : List Reader)
        → All (λ q. q.read_fd ≢ fd) readers
        → All (λ q. q.read_fd ≢ fd) (without_reader r readers)
    All-without_reader r [] all = tt
    All-without_reader r (q ∷ readers) all = elim (Bool-cases (q.read_fd == r.read_fd)) [
      | inl p ↦ rw p (All-without_reader r readers all.1)
      | inr p ↦ rw p (all.0, All-without_reader r readers all.1)
    ]

    Orphan-with_session :
        (shell_id : String) (t : ShellSession) (r : Reader) (s : Shells)
        → t.master_fd ≢ fd
        → r.read_fd ≢ fd
        → Orphan fd s
        → Orphan fd (record s {
          sessions = insert shell_id t s.sessions;
          readers = r ∷ s.readers;
          open_fds = t.master_fd ∷ r.read_fd ∷ s.open_fds;
        })
    unfolding mem_fd
    Orphan-with_session shell_id t r s master reader o = record {
      is_open = ground (arith, o.is_open, master, reader);
      no_session = λ k u h. elim (Bool-cases (shell_id ==ₛ k)) [
        | inl p ↦
            let same : some t ≡ some u = sym (get-insert shell_id k t s.sessions ∙ rw p refl) ∙ h in
            λ e. master (ap (λ x. elim x as (λ y. ℕ) [ none ↦ 0 | some v ↦ v.master_fd ]) same ∙ e)
        | inr p ↦ o.no_session k u (sym (get-insert shell_id k t s.sessions ∙ rw p refl) ∙ h)
      ];
      no_reader = (reader, o.no_reader);
    }

    Orphan-without_session :
        (shell_id : String) (s : Shells)
        → Orphan fd s
        → (k : String) (t : ShellSession) → get k (remove shell_id s.sessions) ≡ some t
        → t.master_fd ≢ fd
    Orphan-without_session shell_id s o k t h = elim (Bool-cases (shell_id ==ₛ k)) [
      | inl p ↦ absurd (ground (arith, get-remove shell_id k s.sessions, p, h))
      | inr p ↦ o.no_session k t (sym (get-remove shell_id k s.sessions ∙ rw p refl) ∙ h)
    ]

    Orphan-end_reader :
        (r : Reader) (s : Shells) → Has r s.readers → Orphan fd s → Orphan fd (end_reader r s)
    unfolding end_reader
    Orphan-end_reader r s has o = record {
      is_open =
          mem_fd_close fd r.read_fd s.open_fds (λ e. All-Has r s.readers o.no_reader has (sym e))
          ∙ o.is_open;
      no_session = Orphan-without_session r.shell_id s o;
      no_reader = All-without_reader r s.readers o.no_reader;
    }

    other_fd : (x : ℕ) (fds : List ℕ) → mem_fd x fds ≡ false → mem_fd fd fds ≡ true → x ≢ fd
    other_fd x fds out there e = absurd (ground (arith, out, there, ap (λ y. mem_fd y fds) e))

    Orphan-open_shell :
        (c : Creation) (shell_id : String) (s : Shells)
        → IsFresh c s
        → Orphan fd s
        → Orphan fd (open_shell wire base64 c shell_id s).1
    unfolding open_shell create_pty_session mem_fd
    Orphan-open_shell c shell_id s fresh o = elim (Option-cases (get shell_id s.sessions)) [
      | inr (t, p) ↦ rw (p, open_shell) o
      | inl p ↦ rw (p, open_shell) (go c fresh)
    ]
      where
        go :
            (c : Creation)
            → IsFresh c s
            → Orphan fd
                (elim (create_pty_session shell_id c s).0
                  as (λ x. Result Failure wire.Value × Shells) [
                    | err e ↦ (
                      err (fault command_failed ("Failed to create shell: " <> e)),
                      (create_pty_session shell_id c s).1,
                    )
                    | ok u ↦ (
                      ok (
                          wire.object
                            (("shell_id", wire.string shell_id) ∷ ("ok", wire.boolean true) ∷ [])),
                      (create_pty_session shell_id c s).1,
                    )
                  ]).1
        go (no_pty e) fresh = o
        go (no_child e master slave) (m, sl) = record {
          is_open = ground (arith, o.is_open);
          no_session = o.no_session;
          no_reader = o.no_reader;
        }
        go (no_dup child_pid master) fresh = o
        go (created child_pid master read_fd shutdown) (m, r) =
            Orphan-with_session shell_id
              (record { master_fd = master; child_pid = child_pid; shutdown = shutdown })
              (record { shell_id = shell_id; read_fd = read_fd; shutdown = shutdown }) s
              (other_fd master s.open_fds m o.is_open) (other_fd read_fd s.open_fds r o.is_open) o

    Orphan-close_shell :
        (shell_id : String) (s : Shells)
        → Orphan fd s
        → Orphan fd (close_shell wire base64 shell_id s).1
    unfolding close_shell
    Orphan-close_shell shell_id s o = elim (Option-cases (get shell_id s.sessions)) [
      | inl p ↦ rw (p, close_shell) o
      | inr (t, p) ↦
          rw (p, close_shell)
            (record {
              is_open =
                  mem_fd_close fd t.master_fd s.open_fds (λ e. o.no_session shell_id t p (sym e))
                  ∙ o.is_open;
              no_session = Orphan-without_session shell_id s o;
              no_reader = o.no_reader;
            })
    ]

    Orphan-write_shell :
        (outcome : Result String ℕ) (shell_id payload : String) (s : Shells)
        → Orphan fd s
        → Orphan fd (write_shell wire base64 outcome shell_id payload s).1
    unfolding write_shell
    Orphan-write_shell outcome shell_id payload s o =
        elim (Option-cases (get shell_id s.sessions)) [
          | inl p ↦ rw (p, write_shell) o
          | inr (t, p) ↦ elim (Result-cases (base64.decode payload)) [
            | inr (e, q) ↦ rw (p, write_shell, q) o
            | inl (bytes, q) ↦ elim (Result-cases outcome) [
              | inr (e, x) ↦ rw (p, write_shell, q, x) o
              | inl (n, x) ↦
                  rw (p, write_shell, q, x)
                    (record {
                      is_open = o.is_open;
                      no_session = o.no_session;
                      no_reader = o.no_reader;
                    })
            ]
          ]
        ]

    Orphan-resize_shell :
        (failure : Option String) (shell_id : String) (s : Shells)
        → Orphan fd s
        → Orphan fd (resize_shell wire base64 failure shell_id s).1
    unfolding resize_shell
    Orphan-resize_shell failure shell_id s o = elim (Option-cases (get shell_id s.sessions)) [
      | inl p ↦ rw (p, resize_shell) o
      | inr (t, p) ↦ elim (Option-cases failure) [
        | inl q ↦ rw (p, resize_shell, q) o
        | inr (e, q) ↦ rw (p, resize_shell, q) o
      ]
    ]

    Step-Orphan : {s t : Shells} → Step wire base64 s t → Orphan fd s → Orphan fd t
    Step-Orphan (opens c shell_id s fresh) o = Orphan-open_shell c shell_id s fresh o
    Step-Orphan (writes outcome shell_id payload s) o =
        Orphan-write_shell outcome shell_id payload s o
    Step-Orphan (resizes failure shell_id s) o = Orphan-resize_shell failure shell_id s o
    Step-Orphan (closes shell_id s) o = Orphan-close_shell shell_id s o
    Step-Orphan (ends r s has) o = Orphan-end_reader r s has o

    pub Reach-Orphan : {s t : Shells} → Reach wire base64 s t → Orphan fd s → Orphan fd t
    Reach-Orphan here o = o
    Reach-Orphan (next before step) o = Step-Orphan step (Reach-Orphan before o)
