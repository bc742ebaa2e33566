-- ===== src/Manager/Laws.antt =====
-- cmd/main.go: the TLS settings, the protection of the metrics, and the order of the set-up.
use capi_noplane.Prelude.{
  String, Bool, true, false, List, [], ◌∷◌, ◌≡◌, refl, ap, sym, ◌∙◌, if◌then◌else◌, not, arith,
  string_eq,
}
use capi_noplane.Exec.{Sys, Outcome, done, ◌>>=◌}
use capi_noplane.Manager.{
  Flags, TlsConfig, TlsOption, disable_http2, tls_opts, webhook_options, metrics_options,
  manager_options, SetupCall, Runtime, main,
}

-- The options in turn, as the servers apply them.
abbrev pub applied : List TlsOption → TlsConfig → TlsConfig
applied [] c = c
applied (f ∷ fs) c = applied fs (f c)

kept_options :
    (flags : Flags)
    → ((webhook_options flags).tls_opts ≡ tls_opts flags)
      × ((metrics_options flags).tls_opts ≡ tls_opts flags)
unfolding webhook_options metrics_options
kept_options flags = ground arith

offer :
    (b : Bool) (c : TlsConfig)
    → (applied (if not b then disable_http2 ∷ [] else []) c).next_protos
      ≡ (if b then c.next_protos else "http/1.1" ∷ [])
unfolding disable_http2
offer true c = refl
offer false c = refl

offered :
    (flags : Flags) (c : TlsConfig)
    → (applied (tls_opts flags) c).next_protos
      ≡ (if flags.enable_http2 then c.next_protos else "http/1.1" ∷ [])
unfolding tls_opts disable_http2
offered flags c = offer flags.enable_http2 c

protected :
    (flags : Flags)
    → let options = metrics_options flags in
      (options.filter_provider ≡ flags.secure_metrics)
      × (options.secure_serving ≡ flags.secure_metrics)
unfolding metrics_options
protected flags = ground arith

-- Unless --enable-http2 is given, the webhook server and the metrics server both offer HTTP/1.1 only,
-- whatever their TLS configuration was; with it they both offer what the configuration says. The
-- metrics are behind authentication and authorization exactly if they are served securely, as
-- --metrics-secure says.
pub manager_options_lem :
    (flags : Flags) (c : TlsConfig)
    → let options = manager_options flags in
      let protos : List String = if flags.enable_http2 then c.next_protos else "http/1.1" ∷ [] in
      ((applied options.webhook_server.tls_opts c).next_protos ≡ protos)
      × ((applied options.metrics.tls_opts c).next_protos ≡ protos)
      × (options.metrics.filter_provider ≡ options.metrics.secure_serving)
      × (options.metrics.secure_serving ≡ flags.secure_metrics)
unfolding manager_options
manager_options_lem flags c =
    let (w, m) = kept_options flags in
    let (f, sec) = protected flags in
    (
      ap (λ (l : List TlsOption). (applied l c).next_protos) w ∙ offered flags c,
      ap (λ (l : List TlsOption). (applied l c).next_protos) m ∙ offered flags c,
      f ∙ sym sec,
      sec,
    )

module _ {W C G : Type 0} (runtime : Runtime W C G) (flags : Flags) (s : Sys W SetupCall) where
  -- The manager starts only after everything is set up: if the last call of `main` is the start, then
  -- the configuration, the manager, both controllers and both checks were made before, in this order
  -- and each without an error, and nothing else was called.
  pub main_started :
      (o : Outcome) (t : List (SetupCall × Outcome))
      → s.trace ≡ []
      → (main runtime flags s).1.trace ≡ (SetupCall.start_manager, o) ∷ t
      → t
        ≡ (SetupCall.add_readyz_check, done)
          ∷ (SetupCall.add_healthz_check, done)
          ∷ (SetupCall.set_up_template_controller, done)
          ∷ (SetupCall.set_up_control_plane_controller, done)
          ∷ (SetupCall.new_manager (manager_options flags), done)
          ∷ (SetupCall.get_config, done)
          ∷ []
  unfolding main ◌>>=◌
  main_started o t e h = ground arith
