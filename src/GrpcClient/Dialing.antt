-- ===== src/GrpcClient/Dialing.antt =====
-- What the options of one Dial add up to.
use mathlib.Core.List.{append_assoc, append-nil}
use micro_services.Base.{String, ◌≡◌, refl, ◌∙◌, ap, List, [], ◌∷◌, ◌++◌, map, arith}
use micro_services.GrpcClient.{
  Dialer, plaintext_transport, Config, DialSetting, with_unary_interceptors,
  with_stream_interceptors, with_dial_option, empty_config, configure, dial_options, dial,
}

module _ (D : Dialer) where
  -- The options that a caller can make: the type of the configuration is not exported.
  pub data Setting : Type 0 where
    unary : List D.UnaryInterceptor → Setting
    stream : List D.StreamInterceptor → Setting
    extra : List D.DialOption → Setting

module _ {D : Dialer} where
  abbrev pub setting : Setting D → DialSetting D
  setting (unary is) = with_unary_interceptors D is
  setting (stream is) = with_stream_interceptors D is
  setting (extra opts) = with_dial_option D opts

  -- All interceptors and options that a list of settings names, in order.
  abbrev pub all_unary : List (Setting D) → List D.UnaryInterceptor
  all_unary [] = []
  all_unary (unary is ∷ ss) = is ++ all_unary ss
  all_unary (stream is ∷ ss) = all_unary ss
  all_unary (extra opts ∷ ss) = all_unary ss

  abbrev pub all_stream : List (Setting D) → List D.StreamInterceptor
  all_stream [] = []
  all_stream (unary is ∷ ss) = all_stream ss
  all_stream (stream is ∷ ss) = is ++ all_stream ss
  all_stream (extra opts ∷ ss) = all_stream ss

  abbrev pub all_extra : List (Setting D) → List D.DialOption
  all_extra [] = []
  all_extra (unary is ∷ ss) = all_extra ss
  all_extra (stream is ∷ ss) = all_extra ss
  all_extra (extra opts ∷ ss) = opts ++ all_extra ss

-- At most one option for a chain of interceptors: none for no interceptors.
abbrev pub chain_option {ℓ κ} : {A : Type ℓ} {O : Type κ} → (List A → O) → List A → List O
chain_option chain [] = []
chain_option chain (i ∷ is) = chain (i ∷ is) ∷ []

module _ (D : Dialer) where
  configure-map :
      (ss : List (Setting D)) (c : Config D)
      → configure D (map setting ss) c ≡ record {
        unary_interceptors = c.unary_interceptors ++ all_unary ss;
        stream_interceptors = c.stream_interceptors ++ all_stream ss;
        extra = c.extra ++ all_extra ss;
      }
  unfolding configure with_unary_interceptors with_stream_interceptors with_dial_option
  configure-map [] c = simp append-nil
  configure-map (unary is ∷ ss) c =
      configure-map ss (with_unary_interceptors D is c) ∙ simp append_assoc
  configure-map (stream is ∷ ss) c =
      configure-map ss (with_stream_interceptors D is c) ∙ simp append_assoc
  configure-map (extra opts ∷ ss) c =
      configure-map ss (with_dial_option D opts c) ∙ simp append_assoc

  dial_options_lem :
      (us : List D.UnaryInterceptor) (ss : List D.StreamInterceptor) (es : List D.DialOption)
      → dial_options D (record { unary_interceptors = us; stream_interceptors = ss; extra = es })
        ≡ plaintext_transport D ∷ chain_option D.with_chain_unary us
          ++ (chain_option D.with_chain_stream ss ++ es)
  unfolding dial_options
  dial_options_lem [] [] es = refl
  dial_options_lem (u ∷ us) [] es = ground arith
  dial_options_lem [] (s ∷ ss) es = ground arith
  dial_options_lem (u ∷ us) (s ∷ ss) es = ground arith

  -- Dial with any sequence of settings passes to grpc.NewClient the plaintext transport first, then
  -- one chain of all unary interceptors in the order in which they were given, then one chain of all
  -- stream interceptors (each only if there are any), and last every other option in order.
  pub dial-eq-new_client :
      (addr : String) (ss : List (Setting D))
      → dial D addr (map setting ss)
        ≡ D.new_client addr (
            plaintext_transport D ∷ chain_option D.with_chain_unary (all_unary ss)
            ++ (chain_option D.with_chain_stream (all_stream ss) ++ all_extra ss))
  unfolding dial
  dial-eq-new_client addr ss = ap (D.new_client addr) (
      ap (dial_options D) (configure-map ss (empty_config D))
      ∙ dial_options_lem (all_unary ss) (all_stream ss) (all_extra ss))
