-- ===== src/Codecs/Int4/Whole.antt =====
-- src/ams/codecs/int4.py: a whole tensor, encoded by the stream and decoded.
use accumulative_matrix_swee.Prelude.{
  ℕ, ◌*◌, ◌≤◌, ◌≡◌, refl, ◌∙◌, List, [], ◌++◌, map, arith, length, length-map, some, drop,
}
use mathlib.Core.Path.{subst}
use accumulative_matrix_swee.Errors.{ok, err}
use accumulative_matrix_swee.Checked.{Value, checked_product}
use accumulative_matrix_swee.Descriptors.Storage.{DType, ByteRange}
use accumulative_matrix_swee.Codecs.Floats.{Floats, IsIeee}
use accumulative_matrix_swee.Codecs.Grouped.{encode_groups, map_groups, decode_groups-encode_groups}
use accumulative_matrix_swee.Codecs.Sink.{Sink, IsSink}
use accumulative_matrix_swee.Codecs.Stream.{
  Reader, IsReader, Hashes, EncodingResult, item_bytes, words, source_value,
}
use accumulative_matrix_swee.Codecs.Stream.Loop.{length-words}
use accumulative_matrix_swee.Codecs.Stream.Returned.{encode_stream-eq_ok}
use accumulative_matrix_swee.Codecs.Stream.Bounded.{bounded, encode_stream-bounded}
use accumulative_matrix_swee.Codecs.Int4.{
  Int4CodecConfig, group_record_size, encoded_size, quantize, stored_scale,
  encode_int4_group_reference, decode_int4_group_reference, decode_int4_reference,
  encode_int4_stream,
}
use accumulative_matrix_swee.Codecs.Int4.RoundTrip.{largest, decode_group-encode_group}
use accumulative_matrix_swee.Codecs.Int4.Tensor.{encoded_size-records, decode_reference-returns}

module _ (f : Floats) (ieee : IsIeee f) (config : Int4CodecConfig) where
  -- What the values of one group are once they were stored: quantized, and multiplied by the scale.
  abbrev pub dequantized : List f.F → List f.F
  dequantized vs = elim (stored_scale f (largest f ieee vs)) [
    | err e ↦ []
    | ok scale ↦ map (f.mul_int scale) (map (λ x. quantize f x scale) vs)
  ]

  round :
      (vs : List f.F) (p : List ℕ)
      → encode_int4_group_reference f vs config ≡ ok p
      → (decode_int4_group_reference f p (length vs) ≡ ok (dequantized vs))
        × (group_record_size config (length vs) ≡ ok (length p))
  round vs p e =
      let (scale, es, dec, _, _, sized) = decode_group-encode_group f ieee vs config p e in
      (dec ∙ rw (dequantized, es) refl, sized)

  -- If the records of all groups of a tensor are concatenated and have the encoded size, the whole
  -- decodes to the dequantized values of each group, in order.
  decode_reference-encode_groups :
      (vs : List f.F) (out : List ℕ)
      → encode_groups config.group_size (λ v. encode_int4_group_reference f v config) (length vs) vs
        ≡ ok out
      → encoded_size config (length vs) ≡ ok (length out)
      → decode_int4_reference f out (length vs) config
        ≡ ok (map_groups config.group_size dequantized (length vs) vs)
  decode_reference-encode_groups vs out e es =
      let (_, _, positive, _) = encoded_size-records config (length vs) es in
      let dec =
        decode_groups-encode_groups config.group_size (λ v. encode_int4_group_reference f v config)
          (group_record_size config) (decode_int4_group_reference f) dequantized round [] out
          (length vs) vs positive (omega arith) e in
      (decode_reference-returns f out (length vs) config es refl dec).0

  -- What `encode_int4_stream` has written when it returns: a payload of exactly `encoded_size` bytes,
  -- appended to the sink, which `decode_int4_reference` decodes to the values of the source range,
  -- group by group quantized against the stored scale and multiplied by it.
  pub record IsStored (file : List ℕ) (source : ByteRange) (shape : List Value) (dtype : DType)
      (before after : List ℕ) (r : EncodingResult) : Type 0 where
    pub size : ℕ
    pub n : ℕ
    pub out : List ℕ
    pub sized : item_bytes dtype ≡ some size
    pub counted : checked_product shape ≡ ok n
    pub written : after ≡ before ++ out
    pub encoded_bytes : r.encoded_bytes ≡ length out
    pub total : encoded_size config n ≡ ok (length out)
    pub maximum_read : r.maximum_source_read_bytes ≤ config.group_size * size
    pub decodes :
        decode_int4_reference f out n config
        ≡ ok (
            map_groups config.group_size dequantized n
              (map (source_value f dtype) (words size n (drop source.offset file))))

  -- If `encode_int4_stream` returns, for any sink and reader as documented, then the sink has received
  -- one payload of `encoded_size` bytes, and `decode_int4_reference` decodes it to the source values,
  -- each quantized and multiplied by the stored scale of its group. No read exceeds one group: with a
  -- reader that fails where it is asked for more than that, the call does the same.
  pub decode-encode_int4_stream :
      (k : Sink) (h : Hashes) (reader : Reader) (file : List ℕ)
      → IsSink k
      → IsReader reader file
      → (source : ByteRange) (shape : List Value) (dtype : DType) (s : k.S) (r : EncodingResult)
      → (encode_int4_stream f k h reader source shape dtype config s).0 ≡ ok r
      → IsStored file source shape dtype
          (k.content s)
          (k.content (encode_int4_stream f k h reader source shape dtype config s).1)
          r
        × (size : ℕ) × (item_bytes dtype ≡ some size)
        × (encode_int4_stream f k h
              (bounded (config.group_size * size) reader)
              source
              shape
              dtype
              config
              s
            ≡ encode_int4_stream f k h reader source shape dtype config s)
  unfolding encode_int4_stream
  decode-encode_int4_stream k h reader file is_sink is_reader source shape dtype s r e =
      let done =
        encode_stream-eq_ok f k h reader config.group_size (encoded_size config)
          (λ v. encode_int4_group_reference f v config) source dtype file is_sink is_reader shape s
          {r = r} (λ n t et. (encoded_size-records config n et).2) e in
      let len : length
            (map (source_value f dtype) (words done.size done.n (drop source.offset file)))
          ≡ done.n =
        length-map (source_value f dtype) (words done.size done.n (drop source.offset file))
        ∙ length-words done.size done.n (drop source.offset file) in
      let (size, sized, same) =
        encode_stream-bounded f k h reader config.group_size (encoded_size config)
          (λ v. encode_int4_group_reference f v config) source dtype shape s {r = r} e in
      (
        record {
          size = done.size;
          n = done.n;
          out = done.out;
          sized = done.sized;
          counted = done.counted;
          written = done.written;
          encoded_bytes = done.encoded_bytes;
          total = done.total;
          maximum_read = done.maximum_read;
          decodes = whole _ done.n done.out len done.encoded done.total;
        },
        size,
        sized,
        same,
      )
    where
      whole :
          (vs : List f.F) (n : ℕ) (out : List ℕ)
          → length vs ≡ n
          → encode_groups config.group_size (λ v. encode_int4_group_reference f v config) n vs
            ≡ ok out
          → encoded_size config n ≡ ok (length out)
          → decode_int4_reference f out n config
            ≡ ok (map_groups config.group_size dequantized n vs)
      whole vs n out len enc total =
          subst
            (λ n.
              decode_int4_reference f out n config
              ≡ ok (map_groups config.group_size dequantized n vs))
            len (decode_reference-encode_groups vs out (rw len enc) (rw len total))
