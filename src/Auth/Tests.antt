-- ===== src/Auth/Tests.antt =====
-- Sessions and codes in the tables in memory, and the theorems at them.
mod Logins
use recruitment_platform_be.Prelude.{
  if◌then◌else◌, ◌≡◌, refl, true, false, none, some, [], ◌∷◌, ◌+◌, ◌==◌,
}
use recruitment_platform_be.Prelude.Action.{ok, err, is_ok}
use recruitment_platform_be.Auth.Exceptions.{invalid_old_password}
use recruitment_platform_be.Auth.Database.{
  AuthUser, StoredCode, UserStatus, active, blocked, valid_token, valid_code,
}
use recruitment_platform_be.Auth.Database.Memory.{Memory, memory, memory-IsDatabase}
use recruitment_platform_be.Auth.Service.{
  Crypto, Tokens, World, ensure_active_account, issue_tokens, check_refresh, rotate, refresh_tokens,
  exchange_social_code, logout, logout_all, verify_email, reset_password, change_password,
}
use recruitment_platform_be.Auth.Service.Requests.{
  sign_in, refresh, leave, verify_it, change, execute, run,
}
use recruitment_platform_be.Auth.Service.Rotation.{refresh_tokens_once}
use recruitment_platform_be.Auth.Service.Verification.{verify_email_accepted}

service : Unit {0}
unfolding valid_token valid_code ensure_active_account issue_tokens check_refresh rotate
    refresh_tokens exchange_social_code logout logout_all verify_email reset_password
    change_password run
service = tt

-- A refresh token is the number of its user after a fresh number times 10.
abbrev crypto : Crypto
crypto = record {
  hash_token = λ t. t + 1000;
  verify = λ now t. some 4;
  decode = λ t. 900;
  sign_access = λ u now. now;
  sign_refresh = λ u now fresh. fresh + u.id;
  compare_password = λ p h. p + 7 == h;
  hash_password = λ p fresh. p + 7;
}

abbrev user_of : UserStatus → AuthUser
user_of status = record {
  id = 4;
  email = "a@b.vn";
  password = some 17;
  role = "CANDIDATE";
  status = status;
}

abbrev code : StoredCode
code = record { id = 1; user_id = 4; expires_at = 500; used_at = none }

abbrev world_of : UserStatus → World Memory
world_of status = record {
  store = record {
    users = user_of status ∷ [];
    tokens = λ h. none;
    codes = λ h. if h == 1050 then some code else none;
  };
  revocations = [];
}

-- The user has signed in: token 104.
abbrev signed_in : World Memory
signed_in = execute memory crypto (sign_in 1 100 (user_of active)) (world_of active)

abbrev new_tokens : Tokens
new_tokens = record { access_token = 2; refresh_token = 204 }

abbrev refreshed : World Memory
refreshed = execute memory crypto (refresh 2 104 200) signed_in

refresh_it : refresh_tokens memory crypto 2 104 200 signed_in ≡ (ok new_tokens, refreshed)
unfolding service
refresh_it = refl

-- The new token works.
refresh_again : is_ok (refresh_tokens memory crypto 3 204 300 refreshed).0 ≡ true
unfolding service
refresh_again = refl

after_logout :
    is_ok
      (refresh_tokens memory crypto 3 204 300 (execute memory crypto (leave 3 4 204) refreshed)).0
    ≡ false
unfolding service
after_logout = refl

wrong_password : (change_password memory crypto 3 4 9 11 300 refreshed).0 ≡ err invalid_old_password
unfolding service
wrong_password = refl

refresh_tokens_once_example :
    is_ok
      (refresh_tokens memory crypto 9 104 500
        (run memory crypto (refresh 3 204 300 ∷ change 4 4 10 11 400 ∷ []) refreshed)).0
    ≡ false
refresh_tokens_once_example =
    refresh_tokens_once memory-IsDatabase crypto 2 104 200 signed_in refreshed new_tokens
      (refresh 3 204 300 ∷ change 4 4 10 11 400 ∷ []) 9 500 refresh_it

abbrev verified : World Memory
verified = execute memory crypto (verify_it 3 50) (world_of blocked)

verify_it_at : verify_email memory crypto 3 50 (world_of blocked) ≡ (ok tt, verified)
unfolding service
verify_it_at = refl

code_valid : valid_code 3 (memory.find_email_verification 1050 (world_of blocked).store) ≡ some code
unfolding service
code_valid = refl

verify_email_accepted_example : memory.find_user 4 verified.store ≡ some (user_of active)
verify_email_accepted_example =
    verify_email_accepted memory-IsDatabase crypto 3 50 (world_of blocked) verified code
      (user_of blocked) code_valid refl verify_it_at
