-- ===== src/Http/Hosts.antt =====
-- `parseHostPort`: what it accepts, and that it reads back what `makeHostPort` writes.
use nipovpn.Base.{
  ℕ, suc, ◌+◌, ◌-◌, ◌≤◌, ◌<◌, ◌≡◌, ◌≢◌, refl, sym, ap, ◌∙◌, true, false, not, Option, none, some,
  [], ◌∷◌, ◌++◌, Bytes, Lacks, All, codes, is_empty, length, take, drop, get_elem?, take_at,
  drop_at, take-length-append, length-append, arith, ==_refl, ==_ne, inl, inr, Bool-cases,
  Option-cases, get_at, ◌==◌, append_assoc,
}
use nipovpn.Text.{find_char, rfind_char}
use nipovpn.Text.Find.{find_char-append, rfind_char-append}
use nipovpn.Text.Numbers.{to_string}
use nipovpn.Text.Numbers.RoundTrip.{stoi-to_string, to_string-IsDigit, IsDigit}
use nipovpn.Http.{HostPort, parse_port, parse_bracketed, parse_plain, parse_host_port, with_port}

abbrev pub IsPort : ℕ → Type 0
IsPort p = (1 ≤ p) × (p ≤ 65535)

parse_port-IsPort : (s : Bytes) (p : ℕ) → parse_port s ≡ some p → IsPort p
unfolding parse_port
parse_port-IsPort s p h = ground arith

-- Whatever is accepted has a host and a port that exists.
abbrev pub IsDestination : HostPort → Type 0
IsDestination r = r.valid ≡ true → (r.host ≢ []) × IsPort r.port

is_empty-ne : (s : Bytes) → not (is_empty s) ≡ true → s ≢ []
is_empty-ne [] h = cc
is_empty-ne (c ∷ s) h = λ e. cc

with_port-IsDestination :
    (host value : Bytes) (default : ℕ)
    → IsPort default
    → IsDestination (with_port host default (parse_port value))
with_port-IsDestination host value default h = elim (Option-cases (parse_port value)) [
  | inl e ↦ rw e (λ v. cc)
  | inr (p, e) ↦ rw e (λ v. (is_empty-ne host v, parse_port-IsPort value p e))
]

parse_bracketed-IsDestination :
    (input : Bytes) (default : ℕ) (close : Option ℕ)
    → IsPort default
    → IsDestination (parse_bracketed input default close)
unfolding parse_bracketed
parse_bracketed-IsDestination input default none d = λ h. cc
parse_bracketed-IsDestination input default (some close) d =
    elim (Option-cases (get_elem? input (close + 1))) [
      | inl e ↦ rw (e, parse_bracketed) (λ v. (is_empty-ne (take (close - 1) (drop 1 input)) v, d))
      | inr (c, e) ↦
          rw (e, parse_bracketed)
            (elim (Bool-cases (c == b':')) [
              | inl colon ↦ rw colon (with_port-IsDestination _ (drop (close + 2) input) default d)
              | inr other ↦ rw other (λ v. cc)
            ])
    ]

parse_plain-IsDestination :
    (c : ℕ) (s : Bytes) (default : ℕ) (first last : Option ℕ)
    → IsPort default
    → IsDestination (parse_plain (c ∷ s) default first last)
unfolding parse_plain
parse_plain-IsDestination c s default (some first) (some last) d =
    elim (Bool-cases (first == last)) [
      | inl one ↦ rw one (with_port-IsDestination _ (drop (last + 1) (c ∷ s)) default d)
      | inr more ↦ rw more (elim (Option-cases (parse_port (drop (last + 1) (c ∷ s)))) [
        | inl e ↦ rw e (λ v. ((λ z. cc), d))
        | inr (p, e) ↦ rw e (λ v. (is_empty-ne (take last (c ∷ s)) v, parse_port-IsPort _ p e))
      ])
    ]
parse_plain-IsDestination c s default none (some last) d =
    with_port-IsDestination _ (drop (last + 1) (c ∷ s)) default d
parse_plain-IsDestination c s default (some first) none d = λ v. ((λ z. cc), d)
parse_plain-IsDestination c s default none none d = λ v. ((λ z. cc), d)

pub parse_host_port-IsDestination :
    (input : Bytes) (default : ℕ) → IsPort default → IsDestination (parse_host_port input default)
unfolding parse_host_port
parse_host_port-IsDestination [] default d = λ v. cc
parse_host_port-IsDestination (c ∷ s) default d = elim (Bool-cases (c == b'[')) [
  | inl e ↦ rw e (parse_bracketed-IsDestination (c ∷ s) default (find_char b']' (c ∷ s)) d)
  | inr e ↦
      rw e
        (parse_plain-IsDestination c s default (find_char b':' (c ∷ s)) (rfind_char b':' (c ∷ s)) d)
]

-- What `parseHostPort` accepts has a host that is not empty and a port between 1 and 65535, if the
-- default port is such a port.
pub parse_host_port-valid :
    (input : Bytes) (default : ℕ)
    → IsPort default
    → (parse_host_port input default).valid ≡ true
    → ((parse_host_port input default).host ≢ []) × IsPort (parse_host_port input default).port
parse_host_port-valid input default d = parse_host_port-IsDestination input default d

parse_port-to_string : (p : ℕ) → IsPort p → parse_port (to_string p) ≡ some p
unfolding parse_port
parse_port-to_string p h = rw (stoi-to_string p (omega arith)) (ground arith)

digits-Lacks : (b : ℕ) (s : Bytes) → b'9' < b → All IsDigit s → Lacks b s
digits-Lacks b [] h k = tt
digits-Lacks b (c ∷ s) h k = (omega arith, digits-Lacks b s h k.1)

abbrev pub found : Bytes → ℕ → HostPort
found host port = record { valid = true; host = host; port = port }

behind :
    (c : ℕ) (host : Bytes) (x : ℕ) (rest : Bytes)
    → drop (suc (length host) + 1) ((c ∷ host) ++ x ∷ rest) ≡ rest
behind c host x rest =
    ap (drop (suc (length host) + 1)) (sym (append_assoc (c ∷ host) (x ∷ []) rest))
    ∙ drop_at _ ((c ∷ host) ++ x ∷ []) rest (omega (arith, length-append (c ∷ host) (x ∷ [])))

parse_bracketed-found :
    (input host : Bytes) (default close port : ℕ)
    → take (close - 1) (drop 1 input) ≡ host
    → get_elem? input (close + 1) ≡ some b':'
    → drop (close + 2) input ≡ to_string port
    → is_empty host ≡ false
    → IsPort port
    → parse_bracketed input default (some close) ≡ found host port
unfolding parse_bracketed
parse_bracketed-found input host default close port h colon rest full p =
    rw (colon, parse_bracketed, h, rest, parse_port-to_string port p, full)

-- `host:port`, for a host with no colon that does not begin with a bracket.
pub parse_host_port-plain :
    (c : ℕ) (host : Bytes) (port default : ℕ)
    → c ≢ b'['
    → Lacks b':' (c ∷ host)
    → IsPort port
    → parse_host_port ((c ∷ host) ++ (b':' ∷ to_string port)) default ≡ found (c ∷ host) port
unfolding parse_host_port parse_plain
parse_host_port-plain c host port default h k p = rw (
  ==_ne c b'[' h,
  find_char-append b':' (c ∷ host) (to_string port) k,
  rfind_char-append b':' (c ∷ host) (to_string port)
      (digits-Lacks b':' (to_string port) (omega arith) (to_string-IsDigit port)),
  ==_refl (suc (length host)),
  behind c host b':' (to_string port),
  take-length-append host (b':' ∷ to_string port),
  parse_port-to_string port p,
)

-- `[address]:port`.
pub parse_host_port-bracketed :
    (c : ℕ) (host : Bytes) (port default : ℕ)
    → Lacks b']' (c ∷ host)
    → IsPort port
    → parse_host_port (codes "[" ++ ((c ∷ host) ++ (codes "]:" ++ to_string port))) default
      ≡ found (c ∷ host) port
unfolding parse_host_port
parse_host_port-bracketed c host port default k p =
    let input : Bytes = b'[' ∷ c ∷ (host ++ (b']' ∷ b':' ∷ to_string port)) in
    let inside : Bytes = b'[' ∷ c ∷ host in
    let regroup : input ≡ (inside ++ b']' ∷ []) ++ (b':' ∷ to_string port) =
      sym (append_assoc inside (b']' ∷ []) (b':' ∷ to_string port)) in
    let regroup' : input ≡ (inside ++ b']' ∷ b':' ∷ []) ++ to_string port =
      sym (append_assoc inside (b']' ∷ b':' ∷ []) (to_string port)) in
    rw (find_char-append b']' inside (b':' ∷ to_string port) ((λ e. omega arith), k)) (
      parse_bracketed-found input (c ∷ host) default (length inside) port
        (take_at (length inside - 1) (c ∷ host) _ (omega arith))
        (ap (λ s. get_elem? s (length inside + 1)) regroup
          ∙ get_at _ (inside ++ b']' ∷ []) b':' (to_string port)
              (omega (arith, length-append inside (b']' ∷ []))))
        (ap (drop (length inside + 2)) regroup'
          ∙ drop_at _ (inside ++ b']' ∷ b':' ∷ []) (to_string port)
              (omega (arith, length-append inside (b']' ∷ b':' ∷ []))))
        refl p)
