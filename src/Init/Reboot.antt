-- ===== src/Init/Reboot.antt =====
-- The register file from a reboot request to the next start.
use telco_vecchio.Prelude.{
  ◌≡◌, refl, ap, ◌∙◌, some, [], ◌∷◌, ◌++◌, append-nil, ◌==◌, nat_eq, list_eq, find,
}
use telco_vecchio.Text.{Text, len, slice_to, slice_to-append}
use telco_vecchio.Config.{User, Configuration}
use telco_vecchio.Effects.{ok}
use telco_vecchio.Effects.World.{
  World, Host, done, Trace, absent, holds, register_opened, register_read,
}
use telco_vecchio.Init.Register.{
  written_prefix, register_init_listener, registered_user, read_register, remove_register,
  lookup_existing, when_exists, lookup_init_listener,
}

-- The file can be written, in one piece, read and removed.
pub record Works (host : Host) (name : Text) : Type 0 where
  pub opens : (t : Trace) → host.open_register t ≡ done tt
  pub writes : (t : Trace) → host.write_register t ≡ done (len name)
  pub reads : (t : Trace) → host.read_register t ≡ done tt
  pub removes : (t : Trace) → host.remove_register t ≡ done tt

whole : (s : Text) → slice_to (len s) s ≡ some s
whole s =
    let h : slice_to (len s) (s ++ []) ≡ some s = slice_to-append s [] in rw (append-nil s) at h

module _ (host : Host) where
  -- The register then holds the user's name.
  register_init_listener-register :
      (user : User) (w : World)
      → Works host user.name
      → ((register_init_listener host user w).0 ≡ ok tt)
        × ((register_init_listener host user w).1.register ≡ holds user.name)
  unfolding register_init_listener written_prefix
  register_init_listener-register user w works =
      rw (works.opens w.trace)
        (rw (works.writes (register_opened ∷ w.trace)) (rw (whole user.name) (refl, refl)))

  lookup_init_listener-holds :
      (c : Configuration) (name : Text) (w : World)
      → Works host name
      → w.register ≡ holds name
      → ((lookup_init_listener host c w).0 ≡ ok (find (λ u. u.name == name) c.users))
        × ((lookup_init_listener host c w).1.register ≡ absent)
  unfolding lookup_init_listener when_exists lookup_existing read_register remove_register
      registered_user
  lookup_init_listener-holds c name w works h = rw h (
      rw (works.opens w.trace) (
        rw (works.reads (register_opened ∷ w.trace))
          (rw (works.removes (register_read ∷ register_opened ∷ w.trace)) (refl, refl))))

  -- If the file works and takes the name in one write, and is left alone in between, the user who
  -- asked for a reboot is found at the next start when a user of this name is configured; the file
  -- is then gone, so that nobody is told twice.
  pub lookup-register_init_listener :
      (c : Configuration) (user found : User) (w v : World)
      → Works host user.name
      → v.register ≡ (register_init_listener host user w).1.register
      → find (λ u. u.name == user.name) c.users ≡ some found
      → ((lookup_init_listener host c v).0 ≡ ok (some found))
        × ((lookup_init_listener host c v).1.register ≡ absent)
  lookup-register_init_listener c user found w v works same known =
      let (_, kept) = register_init_listener-register user w works in
      let (answer, gone) = lookup_init_listener-holds c user.name v works (same ∙ kept) in
      (answer ∙ ap ok known, gone)
