-- ===== src/Client/Frames.antt =====
-- The simulated console and the server read the same frames.
use fujinet_intv_basketball.Base.{
  ℕ, suc, ◌+◌, ◌≡◌, if_ind, ◌||◌, [], ◌∷◌, Bytes, arith, length, take, drop, leb, ltb,
}
use fujinet_intv_basketball.Wire.{Next, next, next_frame, split_body}
use fujinet_intv_basketball.Client.{Taken, taken, open_body, recv_frame}

open_body-split_body :
    (l t : ℕ) (body rest p r : Bytes)
    → split_body l body rest ≡ next t p r
    → open_body body rest ≡ taken t p r
unfolding split_body
open_body-split_body l t [] rest p r h = cc
open_body-split_body l t (x ∷ xs) rest p r h = cc

-- Whatever frame the server would take from the head of a buffer, the console takes from the same
-- buffer too, and both keep the same rest.
pub recv_frame-next_frame :
    (buf rest p : Bytes) (t : ℕ) → next_frame buf ≡ next t p rest → recv_frame buf ≡ taken t p rest
unfolding recv_frame next_frame
recv_frame-next_frame [] rest p t h = cc
recv_frame-next_frame (l ∷ buf) rest p t h =
    if_ind (λ (n : Next). n ≡ next t p rest → recv_frame (l ∷ buf) ≡ taken t p rest)
      (ltb (l + 1) 2 || ltb 200 l) (λ _ g. absurd (cc))
      (λ _.
        if_ind (λ (n : Next). n ≡ next t p rest → recv_frame (l ∷ buf) ≡ taken t p rest)
          (ltb (length buf) l) (λ _ g. absurd (cc))
          (λ q g.
            if_ind (λ (o : Taken). o ≡ taken t p rest) (leb (l + 1) (suc (length buf)))
              (λ _. open_body-split_body l t (take l buf) (drop l buf) p rest g)
              (λ z. absurd (ground (arith, q, z)))))
      h
