-- ===== src/Tests/Streams.antt =====
-- Sending, receiving and scanning H.264 bytes.
use test.Base.{
  ℕ, ◌+◌, ◌*◌, ◌-◌, ◌/◌, ◌%◌, ◌^◌, ◌≤◌, ◌<◌, ◌≡◌, ◌≢◌, ◌↔◌, refl, some, List, [], ◌∷◌, ◌++◌, length,
  ap, true, replicate, All, arith,
}
use test.Base.Int.{ℤ, pos, negsuc}
use test.Rtp.Send.{h264nal2rtp_send, carried_seq, bump_seq}
use test.Rtp.Fragments.{start_code}
use test.Rtp.RoundTrip.{deliver, Link, h264nal2rtp_send-deliver}
use test.Rtp.Numbering.{log_packet, Log, FitsBuffer, h264nal2rtp_send-Ran, carried_seq-repeats}
use test.Nal.Copy.{copy_nal_from_file, copy_loop}
use test.Nal.Escaped.{scan, copy_nal_from_file-long_code, copy_loop-drops}
use test.Nal.StartCode.{find_nal_start_code, is_code_at}
use test.Nal.StartCode.Laws.{IsFirst, find_nal_start_code-IsFirst}
use test.Nal.Parse.{Counters, result, failed, find_nal_type, parse_loop, parse_h264_file}
use test.Nal.Parse.Laws.{IsLastEnd, parse_h264_file-IsLastEnd}
use test.Nal.Reader
use test.Nal.Reader.Laws.{ReadsNothing, copy_nal_from_file-ReadsNothing}
use test.Tools.SendFile.{send_h264file}
use test.Tools.Pipeline.{joined, stream, send_h264file-deliver}

abbrev link : Link
link = record { ts_current = 0; seq_num = 0; out = some [] }

abbrev log : Log
log = record { ts_current = 0; seq_num = 65534; out = [] }

-- a unit of 3001 bytes
abbrev frame : List ℕ
frame = replicate 3000 7

abbrev units : List (List ℕ)
units = (0x67 ∷ 0 ∷ 5 ∷ []) ∷ (0x65 ∷ 0 ∷ 0 ∷ 3 ∷ 1 ∷ []) ∷ []

abbrev two_codes : List ℕ
two_codes = 9 ∷ 0 ∷ 0 ∷ 0 ∷ 1 ∷ 0x65 ∷ 0 ∷ 0 ∷ 0 ∷ 1 ∷ []

abbrev no_counts : Counters
no_counts = record { idr = 0; slices = 0 }

h264nal2rtp_send-deliver_example :
    (s' : Link) × (h264nal2rtp_send deliver 25 (0x65 ∷ frame) 3001 link ≡ some (pos 0, s'))
    × (s'.out ≡ some (start_code ++ (0x65 ∷ frame)))
h264nal2rtp_send-deliver_example =
    h264nal2rtp_send-deliver 0x65 frame [] (omega arith) 25 link (omega arith) (λ h. omega arith)
      refl

h264nal2rtp_send-Ran_example :
    (k : ℕ) × (s' : Log) × (h264nal2rtp_send log_packet 25 (0x65 ∷ frame) 3001 log
      ≡ some (pos 0, s'))
    × (1400 * (k - 1) < 3001)
    × (3001 ≤ 1400 * k)
    × (length s'.out ≡ 0 + k)
    × (s'.seq_num ≡ (65534 + k) % 2 ^ 16)
    × (All FitsBuffer [] → All FitsBuffer s'.out)
    × (s'.ts_current ≡ (0 + 90000 / 25) % 2 ^ 32)
h264nal2rtp_send-Ran_example =
    h264nal2rtp_send-Ran (0x65 ∷ frame) 3001 25 log (omega arith) (omega arith) (omega arith)

carried_seq-repeats_example :
    ((carried_seq (bump_seq 65534) ≡ carried_seq 65534) ↔ (◌≡◌ {A = ℕ} 65534 65534))
    × (◌≢◌ {A = ℕ} 65534 65534 → carried_seq (bump_seq 65534) ≡ (carried_seq 65534 + 1) % 65535)
    × (carried_seq 65534 ≢ 65535)
carried_seq-repeats_example = carried_seq-repeats 65534 (omega arith)

copy_nal_from_file-long_code_example :
    copy_nal_from_file (0x65 ∷ 0 ∷ 0 ∷ 3 ∷ 0 ∷ 0 ∷ 0 ∷ 1 ∷ 7 ∷ [])
    ≡ (pos 4, 0x65 ∷ 0 ∷ 0 ∷ 3 ∷ [], 7 ∷ [])
copy_nal_from_file-long_code_example =
    copy_nal_from_file-long_code (0x65 ∷ 0 ∷ 0 ∷ 3 ∷ []) (7 ∷ []) (refl, (refl, (refl, (refl, tt))))

copy_loop-drops_example :
    copy_loop (scan 0 0 0 (9 ∷ [])) (0 ∷ 0 ∷ 0 ∷ 0 ∷ 1 ∷ 0x65 ∷ [])
    ≡ copy_loop (scan 0 0 0 (9 ∷ [])) (1 ∷ 0x65 ∷ [])
copy_loop-drops_example = copy_loop-drops 0 0 0 0 (9 ∷ []) (1 ∷ 0x65 ∷ []) (omega arith)

find_nal_start_code-IsFirst_example :
    IsFirst two_codes 0 6 (find_nal_start_code (some two_codes) (pos 10))
find_nal_start_code-IsFirst_example = find_nal_start_code-IsFirst two_codes 10

parse_h264_file-IsLastEnd_example :
    (r : ℕ) × (c' : Counters) × (parse_h264_file (some (two_codes ++ (0x41 ∷ []))) 10 no_counts
      ≡ result (pos 0) (some r) c')
    × IsLastEnd (two_codes ++ (0x41 ∷ [])) 0 0 10 r
parse_h264_file-IsLastEnd_example =
    parse_h264_file-IsLastEnd (two_codes ++ (0x41 ∷ [])) 10 no_counts (omega arith)

-- A start code at the end of the memory makes it read the byte behind.
parse_h264_file_behind : parse_h264_file (some two_codes) 10 no_counts ≡ failed
unfolding parse_h264_file parse_loop find_nal_type is_code_at
parse_h264_file_behind = refl

send_h264file-deliver_example :
    (s' : Link) × (send_h264file deliver 75000 (start_code ++ joined units (0x41 ∷ [])) link
      ≡ some s')
    × (s'.out ≡ some (stream units))
send_h264file-deliver_example =
    send_h264file-deliver 75000 units (0x41 ∷ []) link
      (
        ((refl, (refl, (refl, tt))), omega arith, omega arith),
        (((refl, (refl, (refl, (refl, (refl, tt))))), omega arith, omega arith), tt),
      )
      (omega arith, (omega arith, tt)) (refl, tt) (omega arith) refl

abbrev size_of : ℤ → ℕ
size_of (pos n) = n
size_of (negsuc n) = 0

-- two units of one byte, and room for both
abbrev two_units : List ℕ
two_units = 0 ∷ 0 ∷ 0 ∷ 1 ∷ 65 ∷ 0 ∷ 0 ∷ 0 ∷ 1 ∷ 66 ∷ []

copy_nal_from_file-ReadsNothing_example : ReadsNothing two_units (
    Reader.copy_nal_from_file [] (replicate 1024 0) (some two_units) (some two_units) (pos 10) true)
copy_nal_from_file-ReadsNothing_example =
    copy_nal_from_file-ReadsNothing [] (replicate 1024 0) two_units two_units (pos 10)
      (λ len e. let same : 10 ≡ len = ap size_of e in omega (arith, same))
