-- ===== src/Cobs/Decode.antt =====
-- src/cobs.c: the decoder, which moves the bytes to the front of the buffer that it reads.
use zmk_feature_split_esb.Prelude.{
  ℕ, zero, suc, ◌+◌, ◌-◌, ◌&&◌, ◌||◌, ltb, ◌==◌, if◌then◌else◌, Option, none, some, List, length,
  get_or, set,
}

-- The loop over the `n` bytes of a block.
unfoldable pub copy_block : ℕ → ℕ → ℕ → List ℕ → List ℕ
copy_block zero input_index output_index buffer = buffer
copy_block (suc n) input_index output_index buffer =
    copy_block n (suc input_index) (suc output_index)
      (set buffer output_index (get_or buffer input_index 0))

-- The loop over the blocks: the buffer and the length of its decoded front; `none` is -EINVAL. A
-- round takes a code byte at least, so the length of the buffer is fuel enough.
unfoldable pub decode_from : ℕ → ℕ → ℕ → List ℕ → Option (List ℕ × ℕ)
unfolding copy_block
decode_from zero input_index output_index buffer = some (buffer, output_index)
decode_from (suc fuel) input_index output_index buffer =
    let code = get_or buffer input_index 0 in
    let data_index = suc input_index in
    let copied = copy_block (code - 1) data_index output_index buffer in
    let next_index = data_index + (code - 1) in
    let end_index = output_index + (code - 1) in
    let zero_follows = ltb code 0xFF && ltb next_index (length buffer) in
    let rest =
      decode_from fuel next_index (if zero_follows then end_index + 1 else end_index)
        (if zero_follows then set copied end_index 0 else copied) in
    if ltb input_index (length buffer)
    then (if code == 0 || ltb (length buffer - data_index) (code - 1) then none else rest)
    else some (buffer, output_index)

unfoldable pub cobs_decode_in_place : List ℕ → Option (List ℕ × ℕ)
unfolding decode_from
cobs_decode_in_place buffer =
    if ltb (length buffer) 1 then none else decode_from (length buffer) 0 0 buffer
