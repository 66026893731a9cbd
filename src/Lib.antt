-- ===== src/Lib.antt =====
-- ADI: a model of the text, file and request handling of the inference engine. Paths are from the
-- repository's root.
--
-- Parts, and the files that model them:
--   Utf8 (src/utf8.cpp): the scanner, the validity test, the repair of byte strings and the encoder.
--     `scan_from` is the loop of `scan_utf8`, `scan_round` one round of it, `sanitize_loop` the loop of
--     `sanitize_utf8`. Utf8/Sequence and Utf8/Text say independently what an encoded scalar and
--     an encoded text are; Rounds, Sound, Scan, Repair and Fuel hold the proofs.
--   Unicode (src/unicode.cpp): the conversions between UTF-8 and code points; Data searches the Unicode
--     tables, Normalize composes and orders code points, Pretokenize splits a text into pieces.
--   Tokenizer (src/tokenizer.cpp): the constructor and decoding; Cache encodes pieces, Split finds the
--     special tokens. A piece's symbols go to `bpe_merge`, an argument there.
--   Bpe (src/bpe.cpp): `bpe_merge`; its nodes are a linked list in an array, as in the code.
--   Trellis (src/ne_trellis.hpp, src/expert_trellis.hpp): the walks over the states of a compressed
--     tile. A consumer's calls are the list of its arguments; a tile is a list of 16-bit words.
--   Gguf (src/gguf.cpp, include/adi/gguf.hpp): Cursor reads bytes, Types values and tensor sizes, Align
--     rounds offsets up, File parses the directory and places the tensors, Query reads values
--     and data back. The mapped file is a list of bytes.
--   Json (src/json.cpp, include/adi/json.hpp): Value holds the values and their queries, Lexer and Parser
--     the parser, Printer the printer. Strings go through Utf8 in both directions.
--   ToolCall (src/tool_call.cpp): Tools parses the tools that a request declares, Calls the calls
--     that the model's text makes of them; the arguments go through the JSON parser and printer.
--   Chat (src/chat.cpp): Text trims, splits reasoning from answers and prints a tool call; Prompt puts
--     the prompt together.
--   Server (src/server.cpp): Messages reads the messages of a request, Request its tools and options and
--     has Chat put their prompt together. Receive is `receive_request`: what the socket gives until it
--     fails is a list of chunks.
--   Parallel (src/parallel.cpp): how `WorkerPool::run` divides indices among tasks.
--   Generation (src/generation.cpp): the number of tokens that a request may generate; Prefill is
--     `prefill_prompt`; Batch is `ContinuousBatcher`, whose worker does rounds between the events that
--     other threads cause. Engine is what both use of the model, the tokenizer and the sampler.
--   Base holds the shared lists, bit operations, results and outcomes; Examples holds runs at concrete
--     inputs.
--
-- Conventions: bytes, words and code points are natural numbers, and where a machine integer wraps
-- around or is checked for overflow, the model does too. Code that throws returns a result with an
-- error of its own, without the message. A position in a text is the text that is left.
-- Doubles are their 64 bits; the C++ library's conversions of them, `floor`, and the generated Unicode
-- tables are parameters.
--
-- Bounds and fuel: the scanner and the loops over texts get the length of the text (or one
-- more) as fuel, since each round takes a byte. The JSON parser counts levels down from 129, as the code
-- rejects a depth above 128. The GGUF reader counts array nesting as the code does. `bpe_merge` gets three
-- rounds for each symbol: each pair that is merged adds two candidates at most and takes a node away.
--
-- Not modelled: the numerical kernels, the executor, the model's weights and the sampling of tokens, which
-- are floating-point; the sockets, their deadlines and the routes of HTTP; the command line; the threads that run the pool's tasks; the
-- callback that cancels a tokenization; wall-clock times in results.
pub mod Base
pub mod Utf8
pub mod Unicode
pub mod Trellis
pub mod Gguf
mod Examples
pub mod Json
pub mod Server
pub mod Bpe
pub mod Tokenizer
pub mod ToolCall
pub mod Parallel
pub mod Generation
pub mod Chat
