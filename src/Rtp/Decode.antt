-- ===== src/Rtp/Decode.antt =====
-- The receivers' decoder `decode_rtp2h264` of sample/test_rtp2h264.c, which appends the H.264 bytes of
-- one packet to a file. The file is the list of the bytes written so far.
use test.Base.{
  ℕ, ◌-◌, Option, none, some, List, [], ◌∷◌, ◌++◌, ◌==◌, ltb, if◌then◌else◌, get_or, slice,
}
use test.Base.Int.{ℤ, pos, negsuc}
use test.Rtp.Header.{nalu_header_of, fu_header_of, join_nal_header}

-- `fwrite(&rtp_buf[k], 1, len - k, savefp)`. A negative count becomes a huge `size_t`, and the read
-- runs off the buffer: `none`.
unfoldable pub fwrite_from : ℕ → List ℕ → ℤ → List ℕ → Option (List ℕ)
fwrite_from k rtp_buf (pos len) file =
    if ltb len k then none else some (file ++ slice k (len - k) rtp_buf)
fwrite_from k rtp_buf (negsuc n) file = none

-- the start code and the header of a NAL unit
unfoldable pub put_start : ℕ → ℕ → ℕ → List ℕ → List ℕ
put_start type nri f file = file ++ (0 ∷ 0 ∷ 0 ∷ 1 ∷ join_nal_header type nri f ∷ [])

unfoldable pub decode_rtp2h264 : List ℕ → ℤ → List ℕ → Option (List ℕ)
decode_rtp2h264 rtp_buf len file =
    let nalu_header = nalu_header_of (get_or rtp_buf 12 0) in
    let fu_header = fu_header_of (get_or rtp_buf 13 0) in
    if nalu_header.type == 28
    then (if fu_header.e == 1
        then fwrite_from 14 rtp_buf len file
        else if fu_header.s == 1
        then fwrite_from 14 rtp_buf len
            (put_start fu_header.type nalu_header.nri nalu_header.f file)
        else fwrite_from 14 rtp_buf len file)
    else fwrite_from 13 rtp_buf len (put_start nalu_header.type nalu_header.nri nalu_header.f file)
