-- ===== src/Auth/Domain.antt =====
-- modules/auth/src/domain. Times are nanoseconds of the clock, and time.Now is an argument.
use micro_services.Base.{ℕ, String, ◌+◌, ◌*◌}

-- UserID, Scope and Role are defined types over string, and Expired one over time.Time.
pub record Token : Type 0 where
  pub user_id : String
  pub scope : String
  pub role : String
  pub expired : ℕ

abbrev pub AccessToken : Type 0
AccessToken = Token

abbrev pub RefreshToken : Type 0
RefreshToken = Token

abbrev pub minute : ℕ
minute = 60 * 1000000000

abbrev pub hour : ℕ
hour = 60 * minute

unfoldable pub create_token : (now : ℕ) → (uid scope role : String) → (expired : ℕ) → Token
create_token now uid scope role expired = record {
  user_id = uid;
  scope = scope;
  role = role;
  expired = now + expired;
}

unfoldable pub new_access_token : (now : ℕ) → (uid scope role : String) → AccessToken
unfolding create_token
new_access_token now uid scope role = create_token now uid scope role (15 * minute)

unfoldable pub new_refresh_token : (now : ℕ) → (uid scope role : String) → RefreshToken
unfolding create_token
new_refresh_token now uid scope role = create_token now uid scope role (12 * hour)

-- The zero value domain.Token{}; the zero time.Time stands before every reading of the clock.
abbrev pub empty_token : Token
empty_token = record { user_id = ""; scope = ""; role = ""; expired = 0 }

pub record User : Type 0 where
  pub id : String
  pub email : String
  pub password : String

unfoldable pub new_user : (id email password : String) → User
new_user id email password = record { id = id; email = email; password = password }

pub record LoginInput : Type 0 where
  pub email : String
  pub password : String

unfoldable pub new_login_input : (email password : String) → LoginInput
new_login_input email password = record { email = email; password = password }
