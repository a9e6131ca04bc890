-- ===== src/Lib.antt =====
-- Accumulative matrix sweeping: the Python library under src/ams, modelled and proved.
--
-- The program runs models whose weights do not fit in memory. A package describes tensors by immutable
-- descriptors (src/ams/descriptors.py) whose numbers pass through checked arithmetic
-- (src/ams/checked.py); weights are stored in grouped low-bit codecs (src/ams/codecs); a broker
-- (src/ams/resources.py) reserves memory before anything is allocated; files are read in ranges and
-- chunks published by their hash (src/ams/storage), foreign weights come in as safetensors files
-- (src/ams/integrations/safetensors.py), and a conversion publishes them chunk by chunk with a
-- journal that lets it start again (src/ams/conversion.py); and the events of a model go
-- through an accumulator (src/ams/api/generation.py) before they are served. Every part raises AmsError
-- (src/ams/errors.py).
--
-- Files, and the code that each models:
--   Prelude: Boolean tests, lists by native numbers, integers, texts as code points, association lists.
--   Errors: src/ams/errors.py. An exception is a value of `Exception`; a function that may raise returns
--     a `Result`, and a method that changes its object returns the result and the new object.
--   Checked: src/ams/checked.py. Its arguments are a `Value` of Python, since the code tests for `bool`.
--   Descriptors: src/ams/descriptors.py. The record has the name of the class and its constructor with
--     `__post_init__` that name in lower case (`byte_range`). Syntax has the validators of texts.
--   Resources: src/ams/resources.py. `reserve` is ResourceBroker.reserve, `release` Reservation.release,
--     `release_resources` ResourceBroker._release. World has the steps that a program can take.
--   Codecs: src/ams/codecs. Floats is what the codecs use of `float` and `struct`, Groups the arithmetic
--     of grouped records, Grouped the loops over groups, Sink `_write_exact`,
--     Stream the streaming encoders, Int4 src/ams/codecs/int4.py,
--     Ternary src/ams/codecs/ternary.py.
--   Generation: src/ams/api/generation.py. `accept` is GenerationAccumulator.accept.
--   OpenaiStream: src/ams/api/openai_stream.py. Payloads has the dicts that are sent, Session the state and
--     its small steps, Push `push`, `error_event` and `response_body`. Client is a client of the protocol,
--     written from the protocol and not from the code, and below it the proofs that relate the two.
--   Server: src/ams/api/server.py, the stream of one request (`_stream_chunks`).
--   Safetensors: src/ams/integrations/safetensors.py. Coverage has `_validate_complete_coverage`, Header
--     `parse_safetensors_header`.
--   Storage: src/ams/storage. Files has a staging file and a final path, on which the steps of a publication
--     act in their order. `store_reader` is a FileRangeStore as the reader that the other parts take,
--     Copy is copy_range_atomic of src/ams/storage/copy.py.
--   Canonical: src/ams/canonical.py, on the values of JSON.
--   Conversion: src/ams/conversion.py. Journals has `_journal_to_dict` and `_journal_from_dict`, Store
--     ConversionJournalStore, Execute the loop over the items of a plan (`execute_multi_source`), which works
--     on a `Disk`: the file of the journal and the chunks by their names. Each access finds its own
--     `FileSystem`, so a run can stop between the publication of a chunk and the entry for it.
--
-- Numbers: counts and sizes are native numbers; where the code subtracts, the guard that keeps the
-- difference nonnegative stands before it. Python integers do not overflow; the bound 2^63 - 1 of
-- src/ams/checked.py is written out.
--
-- Fuel: a loop that reads until nothing remains takes what remains as fuel, and each turn consumes at
-- least one, so the fuel is enough; the theorems about such loops say what they return. The loops that write
-- end with the exception `diverged` where the fuel is used up, which a theorem shows not to happen.
--
-- Parameters: floating point and `struct` (Codecs/Floats, with the laws of IEEE 754 that are used), the
-- strict `json.loads` (Generation), `json.dumps` and `json.loads` (Canonical), the messages of exceptions
-- and whether a payload has an encoding in UTF-8 (Server), the JSON decoder of headers (Safetensors/Header), readers, sinks and hashes (Codecs/Sink,
-- Codecs/Stream), files and the file system (Storage, Storage/Copy), and the
-- identifiers of `uuid4`.
--
-- Not modelled: the text and the context of errors, values of other types where the code tests for a type and raises
-- (the values of a group, the fields of a generation event), locks (each method of the broker holds one lock
-- throughout, so it is one step), the HTTP server but for the stream of one request, the clients of model
-- hubs, the numeric operators, and the Rust runtime.
pub mod Prelude
pub mod Errors
pub mod Canonical
pub mod Checked
pub mod Descriptors
pub mod Resources
pub mod Generation
pub mod OpenaiStream
pub mod Server
pub mod Codecs
pub mod Safetensors
pub mod Storage
pub mod Conversion
