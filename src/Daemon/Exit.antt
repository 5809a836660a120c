-- ===== src/Daemon/Exit.antt =====
-- What the command line comes to: `--check-config`, and the exits of the daemon.
use telco_vecchio.Prelude.{
  ℕ, zero, suc, Bool, true, ◌≡◌, ◌≢◌, refl, ◌⊎◌, inl, inr, ◌↔◌, eq_list, some, List, ◌∷◌,
}
use telco_vecchio.Text.{Text, Bytes, text}
use telco_vecchio.Text.Utf8.{from_utf8}
use telco_vecchio.Config.{Configuration}
use telco_vecchio.Effects.{Error, io_error, from_io, ok, err}
use telco_vecchio.Effects.Keeps.{continue-ok, settle-ok, answer-ok, ok_or-ok}
use telco_vecchio.Effects.World.{
  World, Host, Crates, done, Fork, parent, child, fork_failed, forked, file_opened, file_read, emit,
}
use telco_vecchio.Email.{invalid_utf8}
use telco_vecchio.Context.{State}
use telco_vecchio.Daemon.Round.{round, endless}
use telco_vecchio.Init.Start.{parsed, init, read_config_file}
use telco_vecchio.Daemon.CommandLine.{
  success, failure, run_rounds, run, run_if_child, run_daemon, check_config_file, on_arg, main,
}

-- The file can be opened and read, is UTF-8, and holds a configuration for the parser.
pub record Configures (host : Host) (crates : Crates) (path : Text) (w : World) (c : Configuration)
    : Type 0 where
  pub bytes : Bytes
  pub content : Text
  pub opens : host.open_file w.trace path ≡ done tt
  pub reads : host.read_file (file_opened path ∷ w.trace) path ≡ done bytes
  pub decodes : from_utf8 bytes ≡ some content
  pub parses : crates.toml content ≡ inl c

exit_differs : ok failure ≢ ok success
exit_differs h = cc

parsed-ok :
    (r : Configuration ⊎ Text) (w : World) {c : Configuration} → (parsed r w).0 ≡ ok c → r ≡ inl c
parsed-ok (inl c) w h = cc
parsed-ok (inr e) w h = cc

module _ (host : Host) (crates : Crates) where
  pub read_config_file_sound :
      (path : Text) (w : World) {c : Configuration}
      → (read_config_file host crates path w).0 ≡ ok c
      → Configures host crates path w c
  unfolding read_config_file
  read_config_file_sound path w h =
      let opened = emit (file_opened path) w in
      let read = emit (file_read path) opened in
      let (_, opens, h1) = answer-ok from_io (host.open_file w.trace path) _ opened h in
      let (bytes, reads, h2) = answer-ok from_io (host.read_file opened.trace path) _ read h1 in
      let (content, decodes, h3) = ok_or-ok (io_error invalid_utf8) (from_utf8 bytes) _ read h2 in
      record {
        bytes = bytes;
        content = content;
        opens = opens;
        reads = reads;
        decodes = decodes;
        parses = parsed-ok (crates.toml content) read h3;
      }

  pub read_config_file_complete :
      (path : Text) (w : World) {c : Configuration}
      → Configures host crates path w c
      → read_config_file host crates path w
        ≡ (ok c, emit (file_read path) (emit (file_opened path) w))
  unfolding read_config_file
  read_config_file_complete path w h = rw h.opens (rw h.reads (rw h.decodes (rw h.parses refl)))

  -- `--check-config` of a file ends with success exactly if the file can be opened and read, is UTF-8
  -- and holds a configuration.
  pub check_config_iff :
      (n : ℕ) (program path : Text) (args : List Text) (w : World)
      → ((main host crates n (program ∷ text "--check-config" ∷ path ∷ args) w).0 ≡ ok success)
        ↔ ((c : Configuration) × Configures host crates path w c)
  unfolding main on_arg check_config_file eq_list
  check_config_iff n program path args w =
      let read = read_config_file host crates path w in
      (
        λ h. elim (settle-ok read.0 _ _ read.1 h) [
          | inl (c, same, _) ↦ (c, read_config_file_sound path w same)
          | inr (e, _, more) ↦ absurd (exit_differs more)
        ],
        λ (c, h). rw (read_config_file_complete path w h) refl,
      )

  -- The loop does not come back.
  endless-misses : (n : ℕ) (s : State) {u : Unit {0}} → (endless host crates n s).0 ≢ ok u
  unfolding endless
  endless-misses zero s h = cc
  endless-misses (suc n) s h =
      let first = round host crates s in
      let (_, _, rest) = continue-ok first.0 _ first.1 h in endless-misses n first.1 rest

  run-ok :
      (n : ℕ) (is_daemon : Bool) (w : World) {u : Unit {0}}
      → (run host crates n is_daemon w).0 ≡ ok u
      → (e : Error) × ((init host crates is_daemon w).0 ≡ err e)
  unfolding run run_rounds
  run-ok n is_daemon w h =
      let begun = init host crates is_daemon w in
      elim (settle-ok begun.0 _ _ begun.1 h) [
        | inl (c, _, goes) ↦ absurd (endless-misses n _ goes)
        | inr (e, same, _) ↦ (e, same)
      ]

  run-failed :
      (n : ℕ) (is_daemon : Bool) (w : World) {e : Error}
      → (init host crates is_daemon w).0 ≡ err e
      → (run host crates n is_daemon w).0 ≡ ok tt
  unfolding run
  run-failed n is_daemon w h = rw h refl

  -- What ends in the child is a failed start.
  child_ends :
      (n : ℕ) (which : Fork) (w : World) {u : Unit {0}}
      → (run_if_child host crates n which w).0 ≡ ok u
      → (which ≢ child) ⊎ ((e : Error) × ((init host crates true w).0 ≡ err e))
  unfolding run_if_child
  child_ends n child w h = inr (run-ok n true w h)
  child_ends n parent w h = inl λ e. cc
  child_ends n fork_failed w h = inl λ e. cc

  ends_in_child :
      (n : ℕ) (which : Fork) (w : World)
      → (which ≢ child) ⊎ ((e : Error) × ((init host crates true w).0 ≡ err e))
      → (run_if_child host crates n which w).0 ≡ ok tt
  unfolding run_if_child
  ends_in_child n child w (inl other) = absurd (other refl)
  ends_in_child n child w (inr (e, h)) = run-failed n true w h
  ends_in_child n parent w h = refl
  ends_in_child n fork_failed w h = refl

  -- `--daemon` comes to the exit code success exactly if no child process goes on here, or the start
  -- fails with an error in it: a start that succeeds is followed by a loop that never comes back,
  -- whatever fuel it is given.
  pub main_background_iff :
      (n : ℕ) (program : Text) (args : List Text) (w : World)
      → ((main host crates n (program ∷ text "--daemon" ∷ args) w).0 ≡ ok success) ↔ (
          (host.fork w.trace ≢ child)
          ⊎ ((e : Error) × ((init host crates true (emit forked w)).0 ≡ err e)))
  unfolding main on_arg run_daemon eq_list
  main_background_iff n program args w =
      let ran = run_if_child host crates n (host.fork w.trace) (emit forked w) in
      (
        λ h.
            let (_, ended, _) = continue-ok ran.0 _ ran.1 h in
            child_ends n (host.fork w.trace) (emit forked w) ended,
        λ h. rw (ends_in_child n (host.fork w.trace) (emit forked w) h) refl,
      )
