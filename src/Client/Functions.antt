-- ===== src/Client/Functions.antt =====
-- client_api/od_interface.c: the functions that a client calls. Their arguments come in the order of
-- the source, a pointer that they leave NULL is none.
use odyssey_lib.Base.{Bool, List, Option, false, none, true, ℕ}
use odyssey_lib.Client.{
  ApiOpcode, Request, Session, acquire_blocking, cas_blocking, faa_blocking, release_blocking,
  rlxd_read_blocking, rlxd_write_blocking,
}
use odyssey_lib.Client.Api.{Returned, access_async, access_blocking}

abbrev pub request : ApiOpcode → ℕ → Option ℕ → Option (List ℕ) → ℕ → Option ℕ → Bool → ℕ → Request
request type key_id value_to_read value_to_write val_len cas_result rmw_is_weak session_id =
    record {
      session_id = session_id;
      key_id = key_id;
      value_to_read = value_to_read;
      value_to_write = value_to_write;
      val_len = val_len;
      cas_result = cas_result;
      rmw_is_weak = rmw_is_weak;
      type = type;
    }

module _ (assertions : Bool) (hash : ℕ → ℕ) (worker : Session → Session) (fuel : ℕ) where
  unfoldable pub async_read_strong : ℕ → Option ℕ → ℕ → ℕ → Session → Option (Returned × Session)
  async_read_strong key_id value_to_read val_len session_id =
      access_async assertions hash worker fuel true
        (request rlxd_read_blocking key_id value_to_read none val_len none false session_id)

  unfoldable pub async_write_strong :
      ℕ → Option (List ℕ) → ℕ → ℕ → Session → Option (Returned × Session)
  async_write_strong key_id value_to_write val_len session_id =
      access_async assertions hash worker fuel true
        (request rlxd_write_blocking key_id none value_to_write val_len none false session_id)

  unfoldable pub async_acquire_strong : ℕ → Option ℕ → ℕ → ℕ → Session → Option (Returned × Session)
  async_acquire_strong key_id value_to_read val_len session_id =
      access_async assertions hash worker fuel true
        (request acquire_blocking key_id value_to_read none val_len none false session_id)

  unfoldable pub async_release_strong :
      ℕ → Option (List ℕ) → ℕ → ℕ → Session → Option (Returned × Session)
  async_release_strong key_id value_to_write val_len session_id =
      access_async assertions hash worker fuel true
        (request release_blocking key_id none value_to_write val_len none false session_id)

  unfoldable pub async_cas_strong :
      ℕ
      → Option ℕ
      → Option (List ℕ)
      → ℕ
      → Option ℕ
      → Bool
      → ℕ
      → Session
      → Option (Returned × Session)
  async_cas_strong key_id expected_val desired_val val_len cas_result rmw_is_weak session_id =
      access_async assertions hash worker fuel true (
        request cas_blocking key_id expected_val desired_val val_len cas_result rmw_is_weak
          session_id)

  unfoldable pub async_faa_strong :
      ℕ → Option ℕ → Option (List ℕ) → ℕ → ℕ → Session → Option (Returned × Session)
  async_faa_strong key_id value_to_read argument_val val_len session_id =
      access_async assertions hash worker fuel true
        (request faa_blocking key_id value_to_read argument_val val_len none false session_id)

  unfoldable pub async_read_weak : ℕ → Option ℕ → ℕ → ℕ → Session → Option (Returned × Session)
  async_read_weak key_id value_to_read val_len session_id =
      access_async assertions hash worker fuel false
        (request rlxd_read_blocking key_id value_to_read none val_len none false session_id)

  unfoldable pub async_write_weak :
      ℕ → Option (List ℕ) → ℕ → ℕ → Session → Option (Returned × Session)
  async_write_weak key_id value_to_write val_len session_id =
      access_async assertions hash worker fuel false
        (request rlxd_write_blocking key_id none value_to_write val_len none false session_id)

  unfoldable pub async_acquire_weak : ℕ → Option ℕ → ℕ → ℕ → Session → Option (Returned × Session)
  async_acquire_weak key_id value_to_read val_len session_id =
      access_async assertions hash worker fuel false
        (request acquire_blocking key_id value_to_read none val_len none false session_id)

  unfoldable pub async_release_weak :
      ℕ → Option (List ℕ) → ℕ → ℕ → Session → Option (Returned × Session)
  async_release_weak key_id value_to_write val_len session_id =
      access_async assertions hash worker fuel false
        (request release_blocking key_id none value_to_write val_len none false session_id)

  unfoldable pub async_cas_weak :
      ℕ
      → Option ℕ
      → Option (List ℕ)
      → ℕ
      → Option ℕ
      → Bool
      → ℕ
      → Session
      → Option (Returned × Session)
  async_cas_weak key_id expected_val desired_val val_len cas_result rmw_is_weak session_id =
      access_async assertions hash worker fuel false (
        request cas_blocking key_id expected_val desired_val val_len cas_result rmw_is_weak
          session_id)

  unfoldable pub async_faa_weak :
      ℕ → Option ℕ → Option (List ℕ) → ℕ → ℕ → Session → Option (Returned × Session)
  async_faa_weak key_id value_to_read argument_val val_len session_id =
      access_async assertions hash worker fuel false
        (request faa_blocking key_id value_to_read argument_val val_len none false session_id)

  unfoldable pub blocking_read : ℕ → Option ℕ → ℕ → ℕ → Session → Option (Returned × Session)
  blocking_read key_id value_to_read val_len session_id =
      access_blocking assertions hash worker fuel
        (request rlxd_read_blocking key_id value_to_read none val_len none false session_id)

  unfoldable pub blocking_write :
      ℕ → Option (List ℕ) → ℕ → ℕ → Session → Option (Returned × Session)
  blocking_write key_id value_to_write val_len session_id =
      access_blocking assertions hash worker fuel
        (request rlxd_write_blocking key_id none value_to_write val_len none false session_id)

  unfoldable pub blocking_acquire : ℕ → Option ℕ → ℕ → ℕ → Session → Option (Returned × Session)
  blocking_acquire key_id value_to_read val_len session_id =
      access_blocking assertions hash worker fuel
        (request acquire_blocking key_id value_to_read none val_len none false session_id)

  unfoldable pub blocking_release :
      ℕ → Option (List ℕ) → ℕ → ℕ → Session → Option (Returned × Session)
  blocking_release key_id value_to_write val_len session_id =
      access_blocking assertions hash worker fuel
        (request release_blocking key_id none value_to_write val_len none false session_id)

  unfoldable pub blocking_cas :
      ℕ
      → Option ℕ
      → Option (List ℕ)
      → ℕ
      → Option ℕ
      → Bool
      → ℕ
      → Session
      → Option (Returned × Session)
  blocking_cas key_id expected_val desired_val val_len cas_result rmw_is_weak session_id =
      access_blocking assertions hash worker fuel (
        request cas_blocking key_id expected_val desired_val val_len cas_result rmw_is_weak
          session_id)

  unfoldable pub blocking_faa :
      ℕ → Option ℕ → Option (List ℕ) → ℕ → ℕ → Session → Option (Returned × Session)
  blocking_faa key_id value_to_read argument_val val_len session_id =
      access_blocking assertions hash worker fuel
        (request faa_blocking key_id value_to_read argument_val val_len none false session_id)
