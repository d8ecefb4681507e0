-- ===== src/Identity/Fallback.antt =====
-- Devices of clients that send none: internal/modules/identity/application/device_fallback.go.
use Prim.Native.Char.{Char, code}
use Prim.Native.String.{◌++◌}
use cv_agent.Base.{
  ℕ, zero, suc, String, Bool, false, not, ◌||◌, Option, none, some, List, [], ◌∷◌, is_empty, ltb,
  ◌==◌, rune_count, if◌then◌else◌,
}
use cv_agent.Db.{Result, ok, err}
use cv_agent.Platform.Id.{is_uuid}
use cv_agent.Identity.Domain.{AuthError, invalid_device_input, valid_platform}
use cv_agent.Identity.Sessions.{DeviceInput}

pub record DeviceFallback : Type 0 where
  pub user_agent : String
  pub remote_ip : String
  pub namespace : String

-- strings.TrimSpace, ToLower and Contains, and SHA-256 in hexadecimal: 64 characters.
pub record DeviceLibrary : Type 0 where
  pub trim_space : String → String
  pub to_lower : String → String
  pub contains : String → String → Bool
  pub sha256_hex : String → String

abbrev chars : String → List Char
chars String.[] = []
chars (String.◌∷◌ c s) = c ∷ chars s

abbrev text : List Char → String
text [] = ""
text (c ∷ cs) = String.◌∷◌ c (text cs)

abbrev first : ℕ → List Char → List Char
first zero cs = []
first (suc n) [] = []
first (suc n) (c ∷ cs) = c ∷ first n cs

abbrev after : ℕ → List Char → List Char
after zero cs = cs
after (suc n) [] = []
after (suc n) (c ∷ cs) = after n cs

-- An assignment `bytes[i] = f(bytes[i])`.
abbrev set_at : (Char → Char) → ℕ → List Char → List Char
set_at f i [] = []
set_at f zero (c ∷ cs) = f c ∷ cs
set_at f (suc i) (c ∷ cs) = c ∷ set_at f i cs

-- '8', '9', 'a' and 'b' stay.
abbrev variant : Char → Char
variant c = if code c == 56 || code c == 57 || code c == 97 || code c == 98 then c else "8"

-- `formatDeviceID`, of ASCII characters, which are their bytes.
abbrev format_device_id : String → String
format_device_id hexed =
    let b = set_at variant 16 (set_at (λ c. "7") 12 (first 32 (chars hexed))) in
    text (first 8 b)
    ++ ("-"
        ++ (text (first 4 (after 8 b))
            ++ ("-"
                ++ (text (first 4 (after 12 b))
                    ++ ("-" ++ (text (first 4 (after 16 b)) ++ ("-" ++ text (after 20 b))))))))

module _ (lib : DeviceLibrary) where
  abbrev normalize : String → String
  normalize value = let trimmed = lib.trim_space value in if is_empty trimmed then "-" else trimmed

  abbrev detect_platform : String → String
  detect_platform user_agent =
      let ua = lib.to_lower user_agent in
      if lib.contains ua "mac"
      then "macos"
      else if lib.contains ua "windows"
      then "windows"
      else if lib.contains ua "linux"
      then "linux"
      else "macos"

  abbrev device_name_from_ua : String → String
  device_name_from_ua user_agent =
      let trimmed = lib.trim_space user_agent in
      if is_empty trimmed
      then "CV Agent Client"
      else if ltb 100 (rune_count trimmed)
      then text (first 100 (chars trimmed))
      else trimmed

  -- `SynthesizeDevice`
  abbrev synthesize_device : String → DeviceFallback → DeviceInput
  synthesize_device user fb = record {
    id = format_device_id (
        lib.sha256_hex (
          fb.namespace
          ++ ("|"
              ++ (user ++ ("|" ++ (normalize fb.user_agent ++ ("|" ++ normalize fb.remote_ip)))))));
    name = device_name_from_ua fb.user_agent;
    platform = detect_platform fb.user_agent;
    app_version = "unknown";
  }

  abbrev is_supplied : DeviceInput → Bool
  is_supplied d =
      if not (is_uuid d.id) || is_empty d.name || is_empty d.app_version
      then false
      else if ltb 120 (rune_count d.name) || ltb 40 (rune_count d.app_version)
      then false
      else valid_platform d.platform

  -- `ResolveDevice`
  unfoldable pub resolve_device :
      String → Option DeviceInput → DeviceFallback → Result AuthError DeviceInput
  resolve_device user none fb = ok (synthesize_device user fb)
  resolve_device user (some d) fb =
      let trimmed = record d {
        name = lib.trim_space d.name;
        app_version = lib.trim_space d.app_version;
      } in
      if is_supplied trimmed then ok trimmed else err invalid_device_input
