-- ===== src/Distributed/Aggregate/Roundtrip.antt =====
-- Histograms as evidence and back (crates/distributed/src/aggregate.rs).
use mcp_loadtest.Base.{◌+◌, ◌*◌, ◌/◌, ◌≤◌, ok, ◌≡◌, arith, str_eq_iff, Result-cases, inl, inr}
use Prim.Native.String.{len as text_len}
use mcp_loadtest.Distributed.Evidence.{HistogramEvidence}
use mcp_loadtest.Distributed.Aggregate.Types.{Histograms}
use mcp_loadtest.Distributed.Aggregate.Payload.{from_histogram, to_histogram, hdr_encoding}

-- What the two libraries document: base64 decodes what it encoded and takes four characters for each
-- three bytes begun; the V2 deserializer reads back what was serialized, to the last byte.
pub record Laws (lib : Histograms) : Type 0 where
  pub decode-encode : (b : lib.Bytes) → lib.decode (lib.encode b) ≡ ok b
  pub encoded_len : (b : lib.Bytes) → text_len (lib.encode b) ≤ (lib.byte_count b + 2) / 3 * 4
  pub deserialize-serialize :
      (h : lib.Histogram) (b : lib.Bytes)
      → lib.serialize h ≡ ok b
      → lib.deserialize b ≡ ok (h, lib.byte_count b)

-- Whatever histogram is turned into evidence is read back from it, if the libraries keep their laws.
pub to_histogram-from_histogram :
    (lib : Histograms) (laws : Laws lib) (h : lib.Histogram) {e : HistogramEvidence}
    → from_histogram lib h ≡ ok e
    → to_histogram lib e ≡ ok h
unfolding from_histogram to_histogram
to_histogram-from_histogram lib laws h {e} made = elim (Result-cases (lib.serialize h)) [
  | inr (x, bad) ↦ absurd (ground (arith, bad))
  | inl (b, good) ↦ ground (
    arith,
    good,
    laws.decode-encode b,
    laws.encoded_len b,
    laws.deserialize-serialize h b good,
    str_eq_iff e.encoding hdr_encoding,
  )
]
