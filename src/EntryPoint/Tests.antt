-- ===== src/EntryPoint/Tests.antt =====
-- A start without anything in the environment but the password.
use supernote_task_service.Common.{◌≡◌, refl, true, none, some, [], ◌∷◌}
use supernote_task_service.Common.Int.{pos}
use supernote_task_service.Config.{default_settings}
use supernote_task_service.Encoding.Decimal.{parse_int, strip, lstrip, is_space}
use supernote_task_service.EntryPoint.{main, any_address}

by_default :
    main none none (default_settings (b'p' ∷ []))
    ≡ some (record {
      host = any_address;
      port = pos 8000;
      log_level = b'i' ∷ b'n' ∷ b'f' ∷ b'o' ∷ [];
      proxy_headers = true;
      forwarded_allow_ips = some (b'*' ∷ []);
    })
unfolding main parse_int strip lstrip is_space
by_default = refl
