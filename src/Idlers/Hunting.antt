-- ===== src/Idlers/Hunting.antt =====
-- The server admits an idler, and the hunter only joins what the lobby shows as joinable.
use fujinet_intv_basketball.Base.{
  starts_with, ℕ, zero, suc, ◌+◌, ◌*◌, ◌/◌, ◌%◌, ◌≡◌, ◌≢◌, refl, subst, if_ind, true, not, ◌||◌,
  Option, none, some, ◌∷◌, Bytes, arith, length, take, drop, get_elem?, ltb, ◌==◌, ==_iff,
  if◌then◌else◌,
}
use fujinet_intv_basketball.Names.{is_name}
use fujinet_intv_basketball.Names.RoundTrip.{read_name-plain}
use fujinet_intv_basketball.Server.Types.{State, System, proto_ver}
use fujinet_intv_basketball.Server.Handlers.{on_hello, greet}
use fujinet_intv_basketball.Client.{strip_zeros}
use fujinet_intv_basketball.Idlers.{hunt}

too_short :
    (name : Bytes)
    → is_name name ≡ true
    → (ltb (suc (length name)) 3 || not (2 == proto_ver) || not (is_name name)) ≢ true
unfolding is_name
too_short name h q = ground (arith, h, q)

-- The payload that an idler of an admitted name greets the server with is accepted, under that name.
pub on_hello_admits :
    (sys : System) (c : ℕ) (name : Bytes) (s : State)
    → is_name name ≡ true
    → on_hello sys c (2 ∷ name) s ≡ some (greet sys c name s)
unfolding on_hello
on_hello_admits sys c name s h = rw (read_name-plain name h) (
    if_ind (λ (o : Option State). o ≡ some (greet sys c name s))
      (ltb (suc (length name)) 3 || not (2 == proto_ver) || not (is_name name))
      (λ q. absurd (too_short name h q)) (λ _. refl))

-- What a hunt may come back with: the eight bytes of an entry with the prefix whose top bit is clear.
abbrev pub IsJoinable : Bytes → Bytes → Bytes → Type 0
IsJoinable prefix body raw =
    (k : ℕ) × (status : ℕ) × (raw ≡ take 8 (take 9 (drop (2 + 9 * k) body)))
    × (starts_with prefix (strip_zeros raw) ≡ true)
    × (get_elem? (take 9 (drop (2 + 9 * k) body)) 8 ≡ some status)
    × (status / 0x80 % 2 ≡ 0)

abbrev Honest : Bytes → Bytes → Option (Option Bytes) → Type 0
Honest prefix body none = Unit
Honest prefix body (some none) = Unit
Honest prefix body (some (some raw)) = IsJoinable prefix body raw

hunt-Honest : (n i : ℕ) (prefix body : Bytes) → Honest prefix body (hunt n i prefix body)
unfolding hunt
hunt-Honest zero i prefix body = tt
hunt-Honest (suc n) i prefix body =
    let entry = take 9 (drop (2 + 9 * i) body) in
    let C : Option (Option Bytes) → Type 0 = Honest prefix body in
    if_ind C (starts_with prefix (strip_zeros (take 8 entry)))
      (λ starts.
        elim (get_elem? entry 8)
            as (λ (x : Option ℕ).
              get_elem? entry 8 ≡ x
              → C (elim x [
                | none ↦ none
                | some status ↦
                    if status / 0x80 % 2 == 0
                    then some (some (take 8 entry))
                    else hunt n (i + 1) prefix body
              ])) [
                | none ↦ λ _. tt
                | some status ↦ λ at_8.
                    if_ind C (status / 0x80 % 2 == 0)
                      (λ clear.
                        (i, status, refl, starts, at_8, (==_iff (status / 0x80 % 2) 0).0 clear))
                      (λ _. hunt-Honest n (i + 1) prefix body)
              ]
          refl)
      (λ _. hunt-Honest n (i + 1) prefix body)

-- What the hunter joins is, byte for byte, the name field of an entry of the payload that has the
-- prefix and whose status does not say started or full.
pub hunt-IsJoinable :
    (n : ℕ) (prefix body raw : Bytes)
    → hunt n 0 prefix body ≡ some (some raw)
    → IsJoinable prefix body raw
hunt-IsJoinable n prefix body raw h = subst (Honest prefix body) h (hunt-Honest n 0 prefix body)
