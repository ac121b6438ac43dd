-- ===== src/Frame/Parts.antt =====
-- `calculate_parts_to_download`: which parts come from the buffer of the last bytes.
use burst.Base.{ℕ, ◌+◌, ◌-◌, ◌*◌, ◌^◌, ◌<◌, ◌≡◌, arith, leb, if◌then◌else◌}
use burst.Frame.{calculate_parts_to_download}

-- No part is lost: the parts that are downloaded and the one that is processed from the buffer are
-- all parts, and the buffer stands for the last one exactly when it begins there or before. There
-- is a part, and the last one begins below 2 ^ 64.
pub calculate_parts_to_download_lem :
    (num_parts part_size cd_start : ℕ)
    → 0 < num_parts
    → (num_parts - 1) * part_size < 2 ^ 64
    → let plan = calculate_parts_to_download num_parts part_size cd_start in
      (plan.parts_to_download + (if plan.process_final_from_buffer then 1 else 0) ≡ num_parts)
      × (plan.process_final_from_buffer ≡ leb cd_start ((num_parts - 1) * part_size))
unfolding calculate_parts_to_download
calculate_parts_to_download_lem num_parts part_size cd_start some_parts small = ground arith
