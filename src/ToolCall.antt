-- ===== src/ToolCall.antt =====
-- src/tool_call.cpp: the function tools that a request declares, and the calls that the model's text
-- makes of them. Texts are byte strings; the words of an error message are left out.
pub mod Tools
pub mod Calls
