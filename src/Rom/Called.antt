-- ===== src/Rom/Called.antt =====
-- tools/recon.py: the dict of call sites of `report` against the list of all calls.
use fujinet_intv_basketball.Base.{
  ℕ, ◌≡◌, ◌∙◌, ap, sym, ◌&&◌, List, [], ◌∷◌, ◌++◌, map, keep, arith, ltb, ◌==◌, append_assoc,
  append-nil, lookup, lookup-insert, if_ind, Option-cases, inl, inr,
}
use fujinet_intv_basketball.Rom.Recon.{Rom, Jsr, jsrs, calls_of}
use fujinet_intv_basketball.Rom.Report.{add_call, add_calls, exec_calls, sites_of}

abbrev named : ℕ → ℕ → List Jsr → List ℕ
named base target js =
    map (λ (j : Jsr). j.site) (keep (λ (j : Jsr). ltb j.target base && j.target == target) js)

sites_of-add_call :
    (base target : ℕ) (j : Jsr) (calls : List (ℕ × List ℕ))
    → sites_of target (add_call base j calls) ≡ sites_of target calls ++ named base target (j ∷ [])
unfolding add_call sites_of
sites_of-add_call base target j calls = elim (Option-cases (lookup target calls)) [
  | inl e ↦ ground (
    arith,
    lookup-insert target j.target (sites_of j.target calls ++ j.site ∷ []) calls,
    append-nil (sites_of target calls),
  )
  | inr (sites, e) ↦ ground (
    arith,
    lookup-insert target j.target (sites_of j.target calls ++ j.site ∷ []) calls,
    append-nil sites,
  )
]

sites_of-add_calls :
    (base target : ℕ) (js : List Jsr) (calls : List (ℕ × List ℕ))
    → sites_of target (add_calls base js calls) ≡ sites_of target calls ++ named base target js
unfolding add_calls
sites_of-add_calls base target [] calls = sym (append-nil (sites_of target calls))
sites_of-add_calls base target (j ∷ js) calls =
    sites_of-add_calls base target js (add_call base j calls)
    ∙ ap (λ (sites : List ℕ). sites ++ named base target js) (sites_of-add_call base target j calls)
    ∙ append_assoc (sites_of target calls) (named base target (j ∷ [])) (named base target js)
    ∙ ap (λ (sites : List ℕ). sites_of target calls ++ sites)
        (if_ind
          (λ (kept : List Jsr).
            named base target (j ∷ []) ++ named base target js ≡ map (λ (k : Jsr). k.site) kept)
          (ltb j.target base && j.target == target) (λ e. rw e) (λ e. rw e))

-- The dict that groups the calls below the image by target has, for each target, exactly the sites of
-- the instructions that call it, in the order of the image.
pub sites_of-exec_calls :
    (target : ℕ) (rom : Rom) → sites_of target (exec_calls rom) ≡ calls_of target rom
unfolding exec_calls calls_of
sites_of-exec_calls target rom = unfold sites_of in sites_of-add_calls rom.base target (jsrs rom) []
