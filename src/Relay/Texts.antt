-- ===== src/Relay/Texts.antt =====
-- The texts that can stand in the lines of a request, and the settings that are such texts.
use nipovpn.Base.{
  ℕ, zero, suc, ◌+◌, ◌≤◌, ◌≡◌, ◌≢◌, Bool, true, false, List, [], ◌∷◌, ◌++◌, Bytes, codes, Lacks,
  All, All-append, All-take, All-drop, arith, length, take, drop, get_elem?, Option-cases, inl, inr,
}
use nipovpn.Text.{starts_with, find, find_char}
use nipovpn.Text.Numbers.{to_string}
use nipovpn.Text.Numbers.RoundTrip.{IsDigit, to_string-IsDigit}
use nipovpn.HttpUtils.{to_lower_copy}
use nipovpn.HttpUtils.Messages.{IsLine}
use nipovpn.Env.{Env}
use nipovpn.Config.{Config, or_else, choose, behind_scheme, upto, relay_host_header}
use nipovpn.Relay.{Fields, connection_value}

-- A text that can stand in a line.
abbrev pub IsText : Bytes → Type 0
IsText s = Lacks b'\r' s × Lacks b'\n' s

-- A method: a letter first, and not `X`, with which no method of HTTP begins.
abbrev pub IsMethod : Bytes → Type 0
IsMethod [] = ⊥
IsMethod (c ∷ s) = (b'A' ≤ c) × (c ≢ b'X') × (c ≢ b'x') × IsText (c ∷ s)

-- The texts of the configuration hold no line break, and its methods are methods.
pub record IsClean (config : Config) : Type 0 where
  pub methods : All IsMethod config.general.methods
  pub end_points : All IsText config.general.end_points
  pub fake_urls : All IsText config.general.fake_urls
  pub http_version : IsText config.agent.http_version
  pub user_agent : IsText config.agent.user_agent

pub IsText-append : (s t : Bytes) → IsText s → IsText t → IsText (s ++ t)
IsText-append s t h k = (All-append _ s t h.0 k.0, All-append _ s t h.1 k.1)

IsText-take : (n : ℕ) (s : Bytes) → IsText s → IsText (take n s)
IsText-take n s h = (All-take _ n s h.0, All-take _ n s h.1)

IsText-drop : (n : ℕ) (s : Bytes) → IsText s → IsText (drop n s)
IsText-drop n s h = (All-drop _ n s h.0, All-drop _ n s h.1)

All-get {κ} :
    (P : Bytes → Type κ) (xs : List Bytes) (i : ℕ) (d : Bytes)
    → P d
    → All P xs
    → P (or_else d (get_elem? xs i))
All-get P [] i d h k = h
All-get P (x ∷ xs) zero d h k = k.0
All-get P (x ∷ xs) (suc i) d h k = All-get P xs i d h k.1

pub choose-All :
    (e : Env) (P : Bytes → Type 0) (fallback : Bytes) (xs : List Bytes) (w : e.World)
    → P fallback
    → All P xs
    → P (choose e fallback xs w).0
choose-All e P fallback [] w h k = h
choose-All e P fallback (x ∷ xs) w h k =
    All-get P (x ∷ xs) (e.pick (length (x ∷ xs)) w).0 fallback h k

behind_scheme-IsText : (s : Bytes) → IsText s → IsText (behind_scheme s)
behind_scheme-IsText s h = elim (Option-cases (find (codes "://") s)) [
  | inl e ↦ rw (e, behind_scheme) h
  | inr (i, e) ↦ rw (e, behind_scheme) (IsText-drop (i + 3) s h)
]

upto-IsText : (x : ℕ) (s : Bytes) → IsText s → IsText (upto x s)
upto-IsText x s h = elim (Option-cases (find_char x s)) [
  | inl e ↦ rw (e, upto) h
  | inr (i, e) ↦ rw (e, upto) (IsText-take i s h)
]

pub relay_host_header-IsText : (url : Bytes) → IsText url → IsText (relay_host_header url)
unfolding relay_host_header
relay_host_header-IsText url h = upto-IsText b'/' _ (behind_scheme-IsText url h)

pub to_string-IsText : (n : ℕ) → IsText (to_string n)
to_string-IsText n = go (to_string n) (to_string-IsDigit n)
  where
    go : (s : Bytes) → All IsDigit s → IsText s
    go [] h = (tt, tt)
    go (c ∷ s) h = (((λ z. omega arith), (go s h.1).0), ((λ z. omega arith), (go s h.1).1))

-- The values of a request that can be sent.
pub record IsSendable (f : Fields) : Type 0 where
  pub method : IsMethod f.method
  pub end_point : IsText f.end_point
  pub host : IsText f.host
  pub session : IsText f.session
  pub action : IsText f.action

pub IsText-connection : (keep : Bool) → IsText (connection_value keep)
IsText-connection true = omega arith
IsText-connection false = omega arith

IsLine-append : (c : ℕ) (s t : Bytes) → IsText (c ∷ s) → IsText t → IsLine ((c ∷ s) ++ t)
IsLine-append c s t h k = IsText-append (c ∷ s) t h k

pub IsMethod-IsLine : (m t : Bytes) → IsMethod m → IsText t → IsLine (m ++ t)
IsMethod-IsLine [] t h k = absurd h
IsMethod-IsLine (c ∷ m) t h k = IsLine-append c m t h.3 k

pub starts_with-other_letter :
    (m t : Bytes) (p : Bytes) → IsMethod m → starts_with (b'x' ∷ p) (to_lower_copy (m ++ t)) ≡ false
unfolding starts_with to_lower_copy
starts_with-other_letter [] t p h = absurd h
starts_with-other_letter (c ∷ m) t p h = ground arith
