-- ===== src/Wire/Tests.antt =====
-- The wire format on small inputs, and the theorems about it at concrete streams.
use fujinet_intv_basketball.Base.{◌≡◌, refl, true, false, [], ◌∷◌, Bytes, arith}
use fujinet_intv_basketball.Wire.{encode, split_frames, next_frame, t_ping, t_list}
use fujinet_intv_basketball.Wire.Chunks.{resume, split_frames-append, split_frames-encode}

-- Three LISTs, cut in the middle of the second.
abbrev first_part : Bytes
first_part = 1 ∷ 2 ∷ 1 ∷ []

abbrev second_part : Bytes
second_part = 2 ∷ 1 ∷ 2 ∷ []

split_frames-append_example :
    split_frames (1 ∷ 2 ∷ 1 ∷ 2 ∷ 1 ∷ 2 ∷ []) ≡ resume (split_frames first_part) second_part
split_frames-append_example = split_frames-append first_part second_part

split_frames-encode_example :
    split_frames (encode ((t_ping, []) ∷ (t_list, 7 ∷ 8 ∷ []) ∷ []))
    ≡ record { frames = (t_ping, []) ∷ (t_list, 7 ∷ 8 ∷ []) ∷ []; left = []; bad = false }
split_frames-encode_example =
    split_frames-encode ((t_ping, []) ∷ (t_list, 7 ∷ 8 ∷ []) ∷ []) (omega arith, (omega arith, tt))

bad_byte : (split_frames (0xC9 ∷ [])).bad ≡ true
unfolding split_frames next_frame
bad_byte = refl
