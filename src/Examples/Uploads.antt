-- ===== src/Examples/Uploads.antt =====
-- An upload of two files in chunks of two bytes.
use agentic_cloud_cluster.Base.{◌≡◌, refl, none, some, List, [], ◌∷◌, All, arith}
use agentic_cloud_cluster.Float.Fixed.{fixed}
use agentic_cloud_cluster.Dict.{lookup}
use agentic_cloud_cluster.Upload.{
  OutputFile, upload_output_files, Step, receive_file_stream, start_receiving,
}
use agentic_cloud_cluster.Upload.Chunks.{undisturbed}
use agentic_cloud_cluster.Upload.Files.{upload-round_trip}
use agentic_cloud_cluster.Examples.{small_task}

abbrev output_files : List OutputFile
output_files =
    record { rel_path = "a.txt"; contents = some (1 ∷ 2 ∷ 3 ∷ []) }
    ∷ record { rel_path = "b/c.bin"; contents = some (7 ∷ []) }
    ∷ []

abbrev received_files : Step
received_files =
    receive_file_stream (start_receiving [])
      (undisturbed (upload_output_files 2 small_task output_files))

upload-round_trip_example :
    (received_files.0 ≡ none)
    × All (λ f. lookup f.rel_path received_files.1.disk ≡ f.contents) output_files
upload-round_trip_example =
    upload-round_trip 2 (omega arith) small_task refl [] output_files
      (
        record { bytes = 1 ∷ 2 ∷ 3 ∷ []; readable = refl; some_bytes = refl; named = refl },
        (record { bytes = 7 ∷ []; readable = refl; some_bytes = refl; named = refl }, tt),
      )
      ((refl, tt), (tt, tt))
