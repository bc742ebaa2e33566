-- ===== src/Tests/Manager.antt =====
-- The set-up with a runtime that answers everything, and with one that has no configuration.
use capi_noplane.Prelude.{List, true, [], ◌∷◌, ◌≡◌, refl, string_eq}
use capi_noplane.Errors.{ok, err, external}
use capi_noplane.Exec.{Outcome, Sys, done, failed, ◌>>=◌}
use capi_noplane.Manager.{default_flags, manager_options, SetupCall, Runtime, main}
use capi_noplane.Manager.Laws.{applied, manager_options_lem, main_started}

abbrev runtime : Runtime (Unit {0}) (Unit {0}) (Unit {0})
runtime = record {
  get_config = λ w. (ok tt, w);
  new_manager = λ c o w. (ok tt, w);
  set_up_control_plane_controller = λ g w. (ok tt, w);
  set_up_template_controller = λ g w. (ok tt, w);
  add_healthz_check = λ g w. (ok tt, w);
  add_readyz_check = λ g w. (ok tt, w);
  start = λ g w. (ok tt, w);
}

abbrev nothing : Sys (Unit {0}) SetupCall
nothing = record { world = tt; trace = [] }

-- Without a configuration nothing else is called.
no_config :
    (main
      (record runtime { get_config = λ w. (err (external "no config"), w) })
      default_flags
      nothing).1.trace
    ≡ (SetupCall.get_config, failed (external "no config")) ∷ []
unfolding main ◌>>=◌
no_config = refl

abbrev earlier : List (SetupCall × Outcome) → List (SetupCall × Outcome)
earlier [] = []
earlier (x ∷ xs) = xs

abbrev all_done : List (SetupCall × Outcome)
all_done =
    (SetupCall.add_readyz_check, done)
    ∷ (SetupCall.add_healthz_check, done)
    ∷ (SetupCall.set_up_template_controller, done)
    ∷ (SetupCall.set_up_control_plane_controller, done)
    ∷ (SetupCall.new_manager (manager_options default_flags), done)
    ∷ (SetupCall.get_config, done)
    ∷ []

main_started_example : earlier (main runtime default_flags nothing).1.trace ≡ all_done
unfolding main ◌>>=◌
main_started_example =
    main_started runtime default_flags nothing done
      (earlier (main runtime default_flags nothing).1.trace) refl refl

manager_options_lem_example :
    let options = manager_options default_flags in
    ((applied options.webhook_server.tls_opts (record { next_protos = "h2" ∷ [] })).next_protos
      ≡ "http/1.1" ∷ [])
    × ((applied options.metrics.tls_opts (record { next_protos = "h2" ∷ [] })).next_protos
        ≡ "http/1.1" ∷ [])
    × (options.metrics.filter_provider ≡ options.metrics.secure_serving)
    × (options.metrics.secure_serving ≡ true)
unfolding default_flags
manager_options_lem_example = manager_options_lem default_flags (record { next_protos = "h2" ∷ [] })
