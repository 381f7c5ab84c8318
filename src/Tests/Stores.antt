-- ===== src/Tests/Stores.antt =====
-- The in-memory store, and the fetching of chunks.
use edgeproc_browser.Engine.Fault.{is_network}
use edgeproc_browser.Base.{starts_with}
use edgeproc_browser.Engine.Platform.{hex}
use edgeproc_browser.Base.{text_eq}
use edgeproc_browser.Engine.Zstd.{
  declared_content_size, parse_frame_header, field_offset, field_width, header_of,
  frame_byte_length, last_block_end, read_content_size,
}
use edgeproc_browser.Base.{ℕ, suc, [], ◌∷◌, some, none, ok, err, ◌≡◌, refl}
use edgeproc_browser.Base.{false}
use edgeproc_browser.Base.Effects.{catch, pure, raise, ◌>>=◌}
use edgeproc_browser.Engine.Integrity.{decompress_and_verify}
use edgeproc_browser.Engine.Zstd.{decompress_bounded}
use edgeproc_browser.Engine.Transfer.{fetch_from, fetch_one, retry, fetch_capped, report, complete}
use edgeproc_browser.Engine.Memory.{store_chunk}
use edgeproc_browser.Engine.Fault.{network}
use edgeproc_browser.Engine.Json.{whole}
use edgeproc_browser.Engine.Platform.{sha256_hex}
use edgeproc_browser.Engine.Memory.{store_chunk, Memory, empty, put_chunk_compressed}
use edgeproc_browser.Engine.Memory.Sound.{
  IsSound, IsReachable, new, called, put_chunk, IsReachable-IsSound,
}
use edgeproc_browser.Engine.Memory.AsHost.{memory_host, active_of, memory-IsStore}
use edgeproc_browser.Engine.Host.{Host, IsStore}
use edgeproc_browser.Engine.Transfer.{
  fetch_one, fetch_from, retry, fetch_missing, fetch_chunk_with_retry, total_fetch_limit,
}
use edgeproc_browser.Engine.Transfer.Attempts.{CountsRequests}
use edgeproc_browser.Tests.Bundle.{platform, frame, chunk_hash, chunk_ref, outside}

abbrev filled : Memory
filled = (put_chunk_compressed platform chunk_hash frame 3 empty).1

filled-IsReachable : IsReachable platform filled
filled-IsReachable = called empty filled new (put_chunk empty chunk_hash frame 3)

IsReachable-IsSound_example : IsSound platform filled
IsReachable-IsSound_example = IsReachable-IsSound platform filled filled-IsReachable

chunk_put : (put_chunk_compressed platform chunk_hash frame 3 empty).0 ≡ ok tt
unfolding put_chunk_compressed store_chunk decompress_and_verify decompress_bounded
    declared_content_size parse_frame_header field_offset field_width header_of frame_byte_length
    last_block_end read_content_size text_eq sha256_hex hex
chunk_put = refl

memory-IsStore_example : IsStore (memory_host platform outside) active_of
memory-IsStore_example = memory-IsStore platform outside

fetched_one :
    (fetch_missing platform (memory_host platform outside) [] (chunk_ref ∷ []) 100 empty).0 ≡ ok 12
unfolding fetch_missing fetch_from fetch_one fetch_chunk_with_retry retry ◌>>=◌ catch fetch_capped
    report put_chunk_compressed store_chunk decompress_and_verify decompress_bounded complete
    text_eq starts_with declared_content_size parse_frame_header field_offset field_width header_of
    frame_byte_length last_block_end read_content_size sha256_hex hex
fetched_one = refl

limit_set : total_fetch_limit (some (whole 5)) ≡ ok 5
unfolding total_fetch_limit
limit_set = refl

-- A transport that is down, over a count of the requests that it got.
abbrev counting_host : Host ℕ
counting_host = record {
  has_chunk = λ h. pure false;
  put_chunk_compressed = λ h b n. pure tt;
  get_chunk = λ h n. raise (network "");
  put_manifest = λ b. pure [];
  get_manifest = λ h. raise (network "");
  read_active = pure none;
  promote = λ pointer cs. pure tt;
  fetch_bytes = λ url n w. (err (network ""), suc w);
  clock = λ w. none;
  on_progress = λ progress. pure tt;
  sleep = λ ms. pure tt;
}

requests_counted : CountsRequests counting_host (λ n. n)
requests_counted = record {
  fetch = λ url n w. refl;
  progress = λ progress. record { at = λ w. refl };
  sleeps = λ ms. record { at = λ w. refl };
}

-- all six attempts are made
six_requests : (fetch_chunk_with_retry platform counting_host chunk_hash [] 10 0).1 ≡ 6
unfolding fetch_chunk_with_retry retry ◌>>=◌ catch fetch_capped report is_network
six_requests = refl
