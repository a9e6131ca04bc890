-- ===== src/OpenaiStream.antt =====
-- src/ams/api/openai_stream.py: `OpenAIStreamSession`, the encoders of one stream of model events.
pub mod Payloads
pub mod Session
pub mod Push
pub mod Client
