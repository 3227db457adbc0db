-- ===== src/ContentEnc/Header/RoundTrip.antt =====
-- What a header that is written reads back as, and what a header that reads well was.
use shiroikuma_gcfs.Prelude.{
  ◌≡◌, ◌≢◌, [], ◌∷◌, ok, arith, length, Bytes, bytes_equal, bytes_equal_iff, big_endian,
  from_big_endian, ◌>>=◌, All, IsByte,
}
use shiroikuma_gcfs.ContentEnc.Header.{
  FileHeader, pack, parse_header, all_zero_file_id, header_id_len, current_version,
}

-- A header with the current version and a 16-byte file ID that is not all zero packs to bytes that
-- parse to it.
pub parse_header-pack :
    (h : FileHeader)
    → length h.id ≡ header_id_len
    → h.version ≡ current_version
    → h.id ≢ all_zero_file_id
    → (pack h >>= parse_header) ≡ ok h
unfolding pack parse_header from_big_endian bytes_equal
parse_header-pack h sized current random =
    let written : big_endian 2 h.version ≡ 0 ∷ 2 ∷ [] = unfold big_endian in rw current in
    rw (pack, written) (ground (arith, bytes_equal_iff h.id all_zero_file_id))

-- A byte string that ParseHeader accepts is the packed form of the header that it returns.
pub pack-parse_header :
    (buf : Bytes) (h : FileHeader) → All IsByte buf → parse_header buf ≡ ok h → pack h ≡ ok buf
unfolding pack parse_header big_endian from_big_endian
pack-parse_header [] h b e = cc
pack-parse_header (x ∷ []) h b e = cc
pack-parse_header (x ∷ y ∷ id) h (bx, (by, _)) e = ground arith
