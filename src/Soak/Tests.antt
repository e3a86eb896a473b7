-- ===== src/Soak/Tests.antt =====
-- The soak's loop and summary on small inputs, and the theorems at concrete values.
use fujinet_intv_basketball.Base.{
  ℕ, ◌+◌, ◌≡◌, refl, true, none, some, List, [], ◌∷◌, ◌++◌, Bytes, ascii, starts_with, split,
  decimal, pos,
}
use fujinet_intv_basketball.Soak.{
  Options, Pass, Turn, idle_name, vm_kb, tick_frames, loop, start_soak, growth,
}

abbrev status : ℕ → List Bytes
status n = ascii "Name:\trelay" ∷ (ascii "VmRSS:\t  " ++ (48 + n) ∷ ascii "000 kB") ∷ []

vm_kb_runs : vm_kb (ascii "VmRSS:") (some (status 7)) ≡ some 7000
unfolding vm_kb starts_with split decimal
vm_kb_runs = refl

idle_name_runs : idle_name 7 ≡ ascii "IDLE07"
unfolding idle_name
idle_name_runs = refl

abbrev options : Options
options = record { secs = 300; idle = 32; period = 50; sample_every = 100 }

abbrev pass_at : ℕ → ℕ → Pass
pass_at now n = record {
  head = now;
  now = now;
  sends = true;
  rss_file = some (status n);
  hwm_file = none;
}

-- Three passes: two ticks and two samples; the fourth is past the end.
loop_runs :
    loop options (pass_at 0 5 ∷ pass_at 20 6 ∷ pass_at 130 7 ∷ pass_at 300 8 ∷ []) start_soak
    ≡ Turn.more (record {
      rss = 5000 ∷ 7000 ∷ [];
      hwm = 0;
      next_sample = 200;
      next_tick = 100;
      tick = 2;
      sent_a = tick_frames 0 1 0x40 ++ tick_frames 0 2 0x40;
      sent_b = tick_frames 1 1 0x20 ++ tick_frames 1 2 0x20;
    })
unfolding loop start_soak vm_kb starts_with split decimal
loop_runs = refl

growth_runs : growth (5 ∷ 5 ∷ 9 ∷ 9 ∷ 8 ∷ 6 ∷ []) ≡ pos 4
unfolding growth
growth_runs = refl
