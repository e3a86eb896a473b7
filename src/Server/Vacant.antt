-- ===== src/Server/Vacant.antt =====
-- `Server.on_hello`: what is left of a name when its holder has been dropped.
use fujinet_intv_basketball.Base.{
  ℕ, ◌≡◌, refl, ap, sym, ◌∙◌, List, true, false, Option, none, some, Bytes, arith, ◌==◌, find, keep,
  not, IsKeyed, find-keep, keep-IsKeyed, Bool-cases, inl, inr, if_ind, length, subst, if◌then◌else◌,
}
use fujinet_intv_basketball.Server.Types.{State, System}
use fujinet_intv_basketball.Server.State.{
  advance, lobby_update, queue, take_tx, update_events, has_alias, unalias, retire, detach,
  clear_members, count_backlog_drop,
}
use fujinet_intv_basketball.Server.Conn.{drop_client}
use fujinet_intv_basketball.Server.Handlers.{replace_holder}
use fujinet_intv_basketball.Server.Sound.{Sound}
use fujinet_intv_basketball.Server.Frames.{any_frames}
use fujinet_intv_basketball.Server.Keeps.{Keeps}
use fujinet_intv_basketball.Server.Keeps.Dropping.{drop_client-Out}
use fujinet_intv_basketball.Server.Drops.{drop_client-Gone}
use fujinet_intv_basketball.Server.Hello.{drop_dead}

-- A name that leads to one client at most.
abbrev LeadsTo : Bytes → ℕ → List (Bytes × ℕ) → Type 0
LeadsTo name old names = IsKeyed names × ((e : ℕ) → find name names ≡ some e → e ≡ old)

abbrev HeldBy : Bytes → ℕ → State → Type 0
HeldBy name old s = LeadsTo name old s.by_name

retire-names :
    (c : ℕ) (s : State)
    → (retire c s).by_name
      ≡ (if has_alias c s.by_name then keep (λ e. not (e.1 == c)) s.by_name else s.by_name)
unfolding retire unalias lobby_update
retire-names c s = ground arith

retire-HeldBy :
    (name : Bytes) (old c : ℕ) (s : State) → HeldBy name old s → HeldBy name old (retire c s)
retire-HeldBy name old c s h = subst (LeadsTo name old) (sym (retire-names c s)) (
    if_ind (LeadsTo name old) (has_alias c s.by_name)
      (λ _. (
        keep-IsKeyed c s.by_name h.0,
        λ e found. h.1 e (ground (arith, find-keep name c s.by_name h.0)),
      ))
      (λ _. h))

HeldBy-Keeps : (name : Bytes) (old : ℕ) → Keeps (HeldBy name old)
unfolding advance lobby_update count_backlog_drop queue take_tx update_events detach clear_members
HeldBy-Keeps name old = record {
  frames = any_frames;
  on_advance = λ s h. h;
  on_lobby_update = λ s h. h;
  on_backlog_drop = λ s h. h;
  on_queue = λ c t p s alive fits short ok h. h;
  on_take = λ c n s alive h. h;
  on_events = λ c s alive h. h;
  on_retire = λ c s alive h. retire-HeldBy name old c s h;
  on_detach = λ c r s h. h;
  on_free = λ m s h. h;
  on_clear = λ r s h. h;
}

module _ (sys : System) where
  drop_client_dead : (c : ℕ) (s : State) → Sound s → ((drop_client sys c s).heap c).dead ≡ true
  drop_client_dead c s v = elim (Bool-cases (s.heap c).dead) [
    | inl gone ↦
        let unchanged : drop_client sys c s ≡ s =
          unfold drop_client in drop_dead sys (length s.clients) c s gone in
        ap (λ (t : State). (t.heap c).dead) unchanged ∙ gone
    | inr alive ↦ (drop_client-Gone sys c s v alive).is_dead
  ]

  held_alone :
      (c : ℕ) (name : Bytes) (held : Option ℕ) (s : State)
      → Sound s
      → find name s.by_name ≡ held
      → (e : ℕ) → ((replace_holder sys c held s).heap e).dead ≡ false
      → find name (replace_holder sys c held s).by_name ≡ some e
      → e ≡ c
  unfolding replace_holder
  held_alone c name none s v f e = λ l h. ground arith
  held_alone c name (some old) s v f e =
      if_ind (λ (t : State). (t.heap e).dead ≡ false → find name t.by_name ≡ some e → e ≡ c)
        (old == c) (λ same l h. ground arith)
        (λ other l h.
          let k =
            (drop_client-Out sys (HeldBy-Keeps name old) old s v
              (v.keyed, (λ d g. ground arith))).kept in
          let was : e ≡ old = k.1 e h in let gone = drop_client_dead old s v in ground arith)

  -- Once the holder of a name is dropped, no live client but the sender has the name.
  pub replace_holder_vacates :
      (c : ℕ) (name : Bytes) (s : State)
      → Sound s
      → (e : ℕ) → ((replace_holder sys c (find name s.by_name) s).heap e).dead ≡ false
      → find name (replace_holder sys c (find name s.by_name) s).by_name ≡ some e
      → e ≡ c
  replace_holder_vacates c name s v = held_alone c name (find name s.by_name) s v refl
