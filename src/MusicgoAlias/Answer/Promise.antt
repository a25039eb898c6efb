-- ===== src/MusicgoAlias/Answer/Promise.antt =====
-- musicgo_alias/Parameters.cpp: what an answer with a range should be, written out.
use Prim.Native.Nat.{min}
use cproject.Base.{
  ℕ, zero, suc, ◌+◌, ◌<◌, ◌≡◌, refl, ap, ap₂, ◌∙◌, true, if◌then◌else◌, List, ◌++◌, length, take,
  drop, arith,
}
use cproject.Base.Int.{pos, ◌+ℤ◌, ◌-ℤ◌}
use cproject.Base.Text.{Text, codes}
use cproject.MusicgoAlias.Request.{Request}
use cproject.MusicgoAlias.Parse.{text_of, print_int}
use cproject.MusicgoAlias.Segment.{Segment}
use cproject.MusicgoAlias.Reply.{Reply, System}
use cproject.MusicgoAlias.Answer.{segment_length, end_of, sums_hold}
use cproject.MusicgoAlias.Answer.Range.{end_for, header_for, body_for, served}

-- The length that the answer states: that of the file, or the end of the segment if that is less.
abbrev pub total_of : List ℕ → Segment → ℕ
total_of bytes segment = if segment.found then min (length bytes) segment.stop else length bytes

-- How many bytes are sent at most: one more than the end of the range, and all without one.
abbrev pub limit_of : ℕ → ℕ → ℕ
limit_of zero total = total
limit_of (suc stop) total = stop + 2

abbrev pub limit_for : ℕ → List ℕ → Segment → ℕ
limit_for range_stop bytes segment = limit_of range_stop (total_of bytes segment)

-- The header, for a range from `n` up to the byte before `limit`.
abbrev pub header_text : System → Request → ℕ → ℕ → ℕ → Text
header_text sys r n limit total =
    codes "HTTP/"
    ++ (text_of r.http
        ++ (codes " 206 Partial Content\nDate: "
            ++ (sys.str_time
                ++ (codes " GMT\nContent-Range: bytes "
                    ++ (print_int (pos n)
                        ++ (codes "-"
                            ++ (print_int (pos limit -ℤ pos 1)
                                ++ (codes "/"
                                    ++ (print_int (pos total)
                                        ++ (codes "\nContent-Length: "
                                            ++ (print_int (pos limit -ℤ pos n)
                                                ++ (codes
                                                      "\nConnection: keep-alive\nContent-Type: audio/"
                                                    ++ ((if r.is_aac
                                                          then codes "aac"
                                                          else codes "mpeg")
                                                        ++ codes
                                                            ";q=0.9,audio/mpeg,*/*;q=0.8\nAccess-Control-Allow-Origin: *\nCache-Control: no-cache, no-store, max-age=0\nPragma: no-cache\nKeep-Alive: timeout=3\n\n")))))))))))))

abbrev pub header_of_range : System → Request → ℕ → ℕ → List ℕ → Segment → Text
header_of_range sys r n range_stop bytes segment =
    header_text sys r n (limit_for range_stop bytes segment) (total_of bytes segment)

-- The bytes of the file behind it.
abbrev pub bytes_of_range : ℕ → ℕ → List ℕ → Segment → List ℕ
bytes_of_range n range_stop bytes segment =
    take (limit_for range_stop bytes segment) (drop (segment.start + n) bytes)

-- The whole answer, and its numbers for the log.
abbrev pub promised : System → Request → ℕ → ℕ → List ℕ → Segment → Reply
promised sys r n range_stop bytes segment =
    let header = header_of_range sys r n range_stop bytes segment in
    let body = bytes_of_range n range_stop bytes segment in
    record {
      ok = true;
      received = header ++ body;
      request = r;
      response = 206;
      response_size = length body;
      header_size = length header;
      file_size = length bytes;
      range_start = pos n;
      range_stop = range_stop;
    }

segment_length-total_of :
    (bytes : List ℕ) (segment : Segment)
    → segment_length (length bytes) segment ≡ total_of bytes segment
segment_length-total_of bytes segment = ground arith

end_of-limit_of : (stop total : ℕ) → end_of stop total ≡ limit_of stop total
end_of-limit_of zero total = refl
end_of-limit_of (suc stop) total = ground arith

pub end_for-limit_for :
    (range_stop : ℕ) (bytes : List ℕ) (segment : Segment)
    → end_for range_stop bytes segment ≡ limit_for range_stop bytes segment
end_for-limit_for range_stop bytes segment =
    end_of-limit_of range_stop (segment_length (length bytes) segment)
    ∙ ap (limit_of range_stop) (segment_length-total_of bytes segment)

pub header_for-header_of_range :
    (sys : System) (r : Request) (n range_stop : ℕ) (bytes : List ℕ) (segment : Segment)
    → header_for sys r (pos n) range_stop bytes segment
      ≡ header_of_range sys r n range_stop bytes segment
header_for-header_of_range sys r n range_stop bytes segment =
    ap₂ (λ e t. header_text sys r n e t) (end_for-limit_for range_stop bytes segment)
      (segment_length-total_of bytes segment)

offset_pos : (start n : ℕ) → pos start +ℤ pos n ≡ pos (start + n)
unfolding ◌+ℤ◌
offset_pos start n = ground arith

pub body_for-bytes_of_range :
    (n range_stop : ℕ) (bytes : List ℕ) (segment : Segment)
    → segment.file.bytes ≡ bytes
    → body_for (pos n) range_stop bytes segment ≡ bytes_of_range n range_stop bytes segment
body_for-bytes_of_range n range_stop bytes segment kept =
    rw (offset_pos segment.start n, kept)
      (ap (λ e. take e (drop (segment.start + n) bytes))
        (end_for-limit_for range_stop bytes segment))

pub served-promised :
    (sys : System) (r : Request) (n range_stop : ℕ) (bytes : List ℕ) (segment : Segment)
    → segment.file.bytes ≡ bytes
    → served sys r (pos n) range_stop bytes segment ≡ promised sys r n range_stop bytes segment
served-promised sys r n range_stop bytes segment kept =
    ap₂
      (λ (h t : List ℕ). record {
        ok = true;
        received = h ++ t;
        request = r;
        response = 206;
        response_size = length t;
        header_size = length h;
        file_size = length bytes;
        range_start = pos n;
        range_stop = range_stop;
      })
      (header_for-header_of_range sys r n range_stop bytes segment)
      (body_for-bytes_of_range n range_stop bytes segment kept)

-- An `int` holds what is computed.
pub sums_hold-limit :
    (start n limit : ℕ)
    → start + n < 2147483648
    → limit < 2147483648
    → sums_hold start (pos n) limit ≡ true
unfolding sums_hold ◌+ℤ◌ ◌-ℤ◌
sums_hold-limit start n limit at_start at_end = ground arith
