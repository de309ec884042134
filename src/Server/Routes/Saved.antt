-- ===== src/Server/Routes/Saved.antt =====
-- POST /api/v1/config of src/server/http_server.cpp: what a request that is refused, and one that is not, leave.
use pulseport.Config.Files.{load_config}
use pulseport.Config.{Config, Value, to_json}
use pulseport.Server.Routes.{Answer, Settings, is_empty_text}
use pulseport.Config.Files.Settled.{unresolved}
use pulseport.Prelude.{Option, false, some, ◌==◌, ◌≡◌}
use pulseport.Prelude.Int.{ℤ}
use pulseport.Prelude.Double.{Double}
use pulseport.Prelude.Dict.{Dict, insert}

module _ {ℓ} {D T : Type ℓ} ⦃d : Double D⦄ (parse : T → Option (Dict (Value D)))
    (dump : Dict (Value D) → T) (back : (j : Dict (Value D)) → parse (dump j) ≡ some j)
    (truncate : D → ℤ) where
  -- What a request leaves of the settings, given its answer.
  abbrev pub Settles : Settings D T → Answer (Dict (Value D)) × Settings D T → Type ℓ
  Settles s (Answer.refused status, s') = (s'.file ≡ s.file) × ((status == 500) ≡ false → s' ≡ s)
  Settles s (Answer.answered j, s') =
      (c : Config D) × (s'.config_ptr ≡ some c)
      × (j ≡ insert "status" (Value.text "ok") (to_json c))
      × (is_empty_text s.config_path ≡ false → load_config parse truncate s'.file ≡ unresolved c)
