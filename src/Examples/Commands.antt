-- ===== src/Examples/Commands.antt =====
-- The command line.
use telco_vecchio.Prelude.{◌≡◌, ◌≢◌, ◌⊎◌, ◌↔◌, true, [], ◌∷◌, nat_eq, list_eq}
use telco_vecchio.Text.{text}
use telco_vecchio.Config.{Configuration}
use telco_vecchio.Effects.{Error, ok, err}
use telco_vecchio.Effects.World.{Host, parent, child, forked, emit}
use telco_vecchio.Init.Start.{init}
use telco_vecchio.Daemon.CommandLine.{success, main}
use telco_vecchio.Daemon.Exit.{Configures, check_config_iff, main_background_iff}
use telco_vecchio.Daemon.Start.{ReadsFile, init-Configures}
use telco_vecchio.Examples.{host, crates, idle}
use telco_vecchio.Examples.Troubles.{agreeing, configured, fresh_context, starts}

check_config_iff_example :
    ((main host configured 2
        (text "telco-vecchio" ∷ text "--check-config" ∷ text "config.toml" ∷ [])
        idle.world).0
      ≡ ok success)
    ↔ ((c : Configuration) × Configures host configured (text "config.toml") idle.world c)
check_config_iff_example =
    check_config_iff host configured 2 (text "telco-vecchio") (text "config.toml") [] idle.world

-- The process that goes on in the foreground.
abbrev in_parent : Host
in_parent = record host { fork = λ t. parent }

main_background_iff_example :
    ((main in_parent crates 2 (text "telco-vecchio" ∷ text "--daemon" ∷ []) idle.world).0
      ≡ ok success)
    ↔ ((in_parent.fork idle.world.trace ≢ child)
        ⊎ ((e : Error) × ((init in_parent crates true (emit forked idle.world)).0 ≡ err e)))
main_background_iff_example =
    main_background_iff in_parent crates 2 (text "telco-vecchio") [] idle.world

init-Configures_example :
    ReadsFile agreeing configured fresh_context.configuration idle.world
      (init agreeing configured true idle.world).1
init-Configures_example =
    init-Configures agreeing configured true idle.world {c = fresh_context} starts
